-- ===== src/Executer/Rounds.antt =====
-- The rounds of the loop around `recv`, on the answers of the kernel one after the other.
use aws_nitro_enclaves_cli.Common.{
  ℕ, zero, suc, ◌+◌, ◌-◌, ◌≤◌, ◌<◌, ◌≡◌, refl, sym, ap, ◌∙◌, true, List, [], ◌∷◌, arith, min,
  length, take, drop, length-take, length-drop,
}
use aws_nitro_enclaves_cli.Image.Bytes.{take-min, drop-min}
use aws_nitro_enclaves_cli.Executer.{Outcome, done, blocked}
use aws_nitro_enclaves_cli.Executer.Socket.{
  Answer, transfer, interrupted, refused, Socket, store, recv_calls,
}
use aws_nitro_enclaves_cli.Executer.Buffer.{
  without_error, Serves, is_stopped, length-store, store-twice, drop-twice, store-nil,
}

recv_calls-over :
    (answers : List Answer) (n len : ℕ) (buf : List ℕ) (s : Socket)
    → len ≤ n
    → recv_calls answers n len buf s ≡ (done buf, record s { answers = answers })
unfolding recv_calls
recv_calls-over [] n len buf s h = ground arith
recv_calls-over (transfer k ∷ answers) n len buf s h = ground arith
recv_calls-over (interrupted ∷ answers) n len buf s h = ground arith
recv_calls-over (refused e ∷ answers) n len buf s h = ground arith

abbrev after_recv : ℕ → Socket → Socket
after_recv size s = record s { incoming = drop size s.incoming }

-- The bytes that a round of the loop moves, of `rest` that it asks for.
abbrev round_size : ℕ → ℕ → Socket → ℕ
round_size k rest s = min (min k rest) (length s.incoming)

recv_calls-transfer :
    (k : ℕ) (answers : List Answer) (n rest : ℕ) (buf : List ℕ) (s : Socket)
    → 0 < rest
    → n + rest ≤ length buf
    → let size = round_size k rest s in
      let bytes = take size s.incoming in
      recv_calls (transfer k ∷ answers) n (n + rest) buf s
      ≡ recv_calls answers (n + length bytes) (n + rest) (store n bytes buf) (after_recv size s)
unfolding recv_calls
recv_calls-transfer k answers n rest buf s more fits =
    let e : n + rest - n ≡ rest = omega arith in
    rw (e, take-min (min k rest) s.incoming, drop-min (min k rest) s.incoming) (ground arith)

recv_calls-interrupted :
    (answers : List Answer) (n len : ℕ) (buf : List ℕ) (s : Socket)
    → n < len
    → len ≤ length buf
    → recv_calls (interrupted ∷ answers) n len buf s ≡ recv_calls answers n len buf s
unfolding recv_calls
recv_calls-interrupted answers n len buf s more fits = ground arith

abbrev pub ServesRecv : ℕ → List Answer → ℕ → ℕ → List ℕ → Socket → Type 0
ServesRecv count answers n rest buf s =
    (left : List Answer) × Serves count left
    × (recv_calls answers n (n + rest) buf s ≡ (
      done (store n (take rest s.incoming) buf),
      record s { incoming = drop rest s.incoming; answers = left },
    ))

-- The rounds that are left read on where a round has stopped.
recv_calls-go_on :
    (answers left : List Answer) (n size rest : ℕ) (buf : List ℕ) (s : Socket)
    → size ≤ rest
    → rest ≤ length s.incoming
    → n + rest ≤ length buf
    → let bytes = take size s.incoming in
      recv_calls answers
          (n + size)
          (n + size + (rest - size))
          (store n bytes buf)
          (after_recv size s)
        ≡ (
          done (store (n + size) (take (rest - size) (drop size s.incoming)) (store n bytes buf)),
          record s { incoming = drop (rest - size) (drop size s.incoming); answers = left },
        )
      → recv_calls answers (n + length bytes) (n + rest) (store n bytes buf) (after_recv size s) ≡ (
        done (store n (take rest s.incoming) buf),
        record s { incoming = drop rest s.incoming; answers = left },
      )
recv_calls-go_on answers left n size rest buf s less enough fits e =
    let l : length (take size s.incoming) ≡ size = omega (arith, length-take size s.incoming) in
    let total : n + size + (rest - size) ≡ n + rest = omega arith in
    ap
      (λ (m : ℕ).
        recv_calls answers (n + m) (n + rest) (store n (take size s.incoming) buf)
          (after_recv size s))
      l
    ∙ (rw (total, drop-twice size rest s.incoming less) at e
        ∙ ap
            (λ (b : List ℕ). (done b, record s { incoming = drop rest s.incoming; answers = left }))
            (store-twice n size rest s.incoming buf less enough fits))

pub recv_calls-Serves :
    (count : ℕ) (answers : List Answer) (n rest : ℕ) (buf : List ℕ) (s : Socket)
    → n + rest ≤ length buf
    → rest ≤ length s.incoming
    → Serves (count + rest) answers
    → ServesRecv count answers n rest buf s
recv_calls-Serves count answers n zero buf s fits enough h =
    let e : n + 0 ≡ n = omega arith in
    (
      answers,
      (h.0, omega (arith, h.1)),
      rw (recv_calls-over answers n (n + 0) buf s (omega arith), store-nil n buf) refl,
    )
recv_calls-Serves count [] n (suc rest) buf s fits enough h = absurd (omega (arith, h.1))
recv_calls-Serves count (transfer k ∷ answers) n (suc rest) buf s fits enough h =
    let size = round_size k (suc rest) s in
    let bytes = take size s.incoming in
    let (left, serves, e) =
      recv_calls-Serves count answers (n + size) (suc rest - size) (store n bytes buf)
        (after_recv size s) (omega (arith, length-store n bytes buf, length-take size s.incoming))
        (omega (arith, length-drop size s.incoming)) (h.0, omega (arith, h.1)) in
    (
      left,
      serves,
      recv_calls-transfer k answers n (suc rest) buf s (omega arith) fits
          ∙ recv_calls-go_on answers left n size (suc rest) buf s (omega arith) enough fits e,
    )
recv_calls-Serves count (interrupted ∷ answers) n (suc rest) buf s fits enough h =
    let (left, serves, e) = recv_calls-Serves count answers n (suc rest) buf s fits enough h in
    (left, serves, recv_calls-interrupted answers n (n + suc rest) buf s (omega arith) fits ∙ e)
recv_calls-Serves count (refused e ∷ answers) n (suc rest) buf s fits enough h =
    absurd (ground (arith, h.0))

abbrev pub DoneRecv : List Answer → ℕ → ℕ → List ℕ → Socket → Type 0
DoneRecv answers n rest buf s =
    (left : List Answer) × (rest ≤ length s.incoming)
    × (recv_calls answers n (n + rest) buf s ≡ (
      done (store n (take rest s.incoming) buf),
      record s { incoming = drop rest s.incoming; answers = left },
    ))

-- With no answer, or an error, no loop that asks for a byte is done.
recv_calls-stopped :
    (answers : List Answer) (n rest : ℕ) (buf : List ℕ) (s : Socket) (b : List ℕ)
    → is_stopped answers ≡ true
    → ¬ ((recv_calls answers n (n + suc rest) buf s).0 ≡ done b)
unfolding recv_calls
recv_calls-stopped [] n rest buf s b e h = ground arith
recv_calls-stopped (refused e ∷ answers) n rest buf s b stopped h = ground arith
recv_calls-stopped (transfer k ∷ answers) n rest buf s b e h = ground arith
recv_calls-stopped (interrupted ∷ answers) n rest buf s b e h = ground arith

pub recv_calls-done :
    (answers : List Answer) (n rest : ℕ) (buf : List ℕ) (s : Socket) (b : List ℕ)
    → n + rest ≤ length buf
    → (recv_calls answers n (n + rest) buf s).0 ≡ done b
    → DoneRecv answers n rest buf s
recv_calls-done answers n zero buf s b fits h =
    let e : n + 0 ≡ n = omega arith in
    (
      answers,
      omega arith,
      rw (recv_calls-over answers n (n + 0) buf s (omega arith), store-nil n buf) refl,
    )
recv_calls-done [] n (suc rest) buf s b fits h =
    absurd (recv_calls-stopped [] n rest buf s b refl h)
recv_calls-done (transfer k ∷ answers) n (suc rest) buf s b fits h =
    let size = round_size k (suc rest) s in
    let bytes = take size s.incoming in
    let step = recv_calls-transfer k answers n (suc rest) buf s (omega arith) fits in
    let l : n + length bytes ≡ n + size = omega (arith, length-take size s.incoming) in
    let total : n + suc rest ≡ n + size + (suc rest - size) = omega arith in
    let (left, enough, e) =
      recv_calls-done answers (n + size) (suc rest - size) (store n bytes buf) (after_recv size s) b
        (omega (arith, length-store n bytes buf, length-take size s.incoming))
        (rw (l, total) at (sym (ap (λ (r : Outcome (List ℕ) × Socket). r.0) step) ∙ h)) in
    let whole : suc rest ≤ length s.incoming = omega (arith, enough, length-drop size s.incoming) in
    (
      left,
      whole,
      step ∙ recv_calls-go_on answers left n size (suc rest) buf s (omega arith) whole fits e,
    )
recv_calls-done (interrupted ∷ answers) n (suc rest) buf s b fits h =
    let step = recv_calls-interrupted answers n (n + suc rest) buf s (omega arith) fits in
    let (left, enough, e) =
      recv_calls-done answers n (suc rest) buf s b fits
        (sym (ap (λ (r : Outcome (List ℕ) × Socket). r.0) step) ∙ h) in
    (left, enough, step ∙ e)
recv_calls-done (refused e ∷ answers) n (suc rest) buf s b fits h =
    absurd (recv_calls-stopped (refused e ∷ answers) n rest buf s b refl h)

pub recv_calls-starved :
    (answers : List Answer) (n rest : ℕ) (buf : List ℕ) (s : Socket)
    → n + rest ≤ length buf
    → length s.incoming < rest
    → without_error answers ≡ true
    → ((recv_calls answers n (n + rest) buf s).0 ≡ blocked)
      × ((recv_calls answers n (n + rest) buf s).1.answers ≡ [])
recv_calls-starved [] n rest buf s fits short h = unfold recv_calls in ground arith
recv_calls-starved (transfer k ∷ answers) n rest buf s fits short h =
    let size = round_size k rest s in
    let bytes = take size s.incoming in
    let step = recv_calls-transfer k answers n rest buf s (omega arith) fits in
    let l : n + length bytes ≡ n + size = omega (arith, length-take size s.incoming) in
    let total : n + size + (rest - size) ≡ n + rest = omega arith in
    rw (step, l)
      (rw total at (
        recv_calls-starved answers (n + size) (rest - size) (store n bytes buf) (after_recv size s)
          (omega (arith, length-store n bytes buf, length-take size s.incoming))
          (omega (arith, length-drop size s.incoming)) h))
recv_calls-starved (interrupted ∷ answers) n rest buf s fits short h =
    rw (recv_calls-interrupted answers n (n + rest) buf s (omega arith) fits)
      (recv_calls-starved answers n rest buf s fits short h)
recv_calls-starved (refused e ∷ answers) n rest buf s fits short h = absurd (ground arith)
