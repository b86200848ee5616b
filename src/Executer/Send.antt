-- ===== src/Executer/Send.antt =====
-- The loop around `send` hands the kernel exactly the bytes of the buffer, however the kernel cuts them up.
use aws_nitro_enclaves_cli.Common.{
  ℕ, zero, suc, ◌+◌, ◌-◌, ◌≤◌, ◌<◌, ◌≡◌, refl, sym, ap, ◌∙◌, true, List, [], ◌∷◌, ◌++◌, arith, min,
  length, take, drop, length-take, length-drop,
}
use mathlib.Core.List.{append_assoc, append-nil}
use aws_nitro_enclaves_cli.Image.Bytes.{drop-drop}
use aws_nitro_enclaves_cli.Executer.{Outcome, done}
use aws_nitro_enclaves_cli.Executer.Socket.{
  Answer, transfer, interrupted, refused, Socket, send_calls, send_loop,
}
use aws_nitro_enclaves_cli.Executer.Buffer.{Serves, is_stopped, take-take-drop}

send_calls-over :
    (answers : List Answer) (n len : ℕ) (buf : List ℕ) (s : Socket)
    → len ≤ n
    → send_calls answers n len buf s ≡ (done tt, record s { answers = answers })
unfolding send_calls
send_calls-over [] n len buf s h = ground arith
send_calls-over (transfer k ∷ answers) n len buf s h = ground arith
send_calls-over (interrupted ∷ answers) n len buf s h = ground arith
send_calls-over (refused e ∷ answers) n len buf s h = ground arith

abbrev after_send : List ℕ → Socket → Socket
after_send bytes s = record s { outgoing = s.outgoing ++ bytes }

send_calls-transfer :
    (k : ℕ) (answers : List Answer) (n rest : ℕ) (buf : List ℕ) (s : Socket)
    → 0 < rest
    → n + rest ≤ length buf
    → let size = min k rest in
      send_calls (transfer k ∷ answers) n (n + rest) buf s
      ≡ send_calls answers
          (n + size)
          (n + size + (rest - size))
          buf
          (after_send (take size (drop n buf)) s)
unfolding send_calls
send_calls-transfer k answers n rest buf s more fits =
    let size = min k rest in
    let e : n + rest - n ≡ rest = omega arith in
    let l : length (take size (drop n buf)) ≡ size =
      omega (arith, length-take size (drop n buf), length-drop n buf) in
    let total : n + size + (rest - size) ≡ n + rest = omega arith in rw (total, e, l) (ground arith)

send_calls-interrupted :
    (answers : List Answer) (n len : ℕ) (buf : List ℕ) (s : Socket)
    → n < len
    → len ≤ length buf
    → send_calls (interrupted ∷ answers) n len buf s ≡ send_calls answers n len buf s
unfolding send_calls
send_calls-interrupted answers n len buf s more fits = ground arith

send-twice :
    (n size rest : ℕ) (outgoing buf : List ℕ)
    → size ≤ rest
    → outgoing ++ take size (drop n buf) ++ take (rest - size) (drop (n + size) buf)
      ≡ outgoing ++ take rest (drop n buf)
send-twice n size rest outgoing buf less =
    rw (append_assoc, sym (drop-drop size n buf))
      (ap (λ (t : List ℕ). outgoing ++ t) (take-take-drop size rest (drop n buf) less))

-- The state that is left when the `rest` bytes behind the first `n` have been sent.
abbrev Sent : List Answer → ℕ → ℕ → List ℕ → Socket → List Answer → Type 0
Sent answers n rest buf s left =
    send_calls answers n (n + rest) buf s
    ≡ (done tt, record s { outgoing = s.outgoing ++ take rest (drop n buf); answers = left })

Sent-transfer :
    (k : ℕ) (answers left : List Answer) (n rest : ℕ) (buf : List ℕ) (s : Socket)
    → 0 < rest
    → n + rest ≤ length buf
    → let size = min k rest in
      Sent answers (n + size) (rest - size) buf (after_send (take size (drop n buf)) s) left
      → Sent (transfer k ∷ answers) n rest buf s left
Sent-transfer k answers left n rest buf s more fits e =
    send_calls-transfer k answers n rest buf s more fits
    ∙ e
    ∙ ap (λ (t : List ℕ). (done tt, record s { outgoing = t; answers = left }))
        (send-twice n (min k rest) rest s.outgoing buf (omega arith))

Sent-zero :
    (answers : List Answer) (n : ℕ) (buf : List ℕ) (s : Socket) → Sent answers n zero buf s answers
Sent-zero answers n buf s =
    send_calls-over answers n (n + 0) buf s (omega arith) ∙ rw append-nil refl

send_calls-Serves :
    (count : ℕ) (answers : List Answer) (n rest : ℕ) (buf : List ℕ) (s : Socket)
    → n + rest ≤ length buf
    → Serves (count + rest) answers
    → (left : List Answer) × Serves count left × Sent answers n rest buf s left
send_calls-Serves count answers n zero buf s fits h =
    (answers, (h.0, omega (arith, h.1)), Sent-zero answers n buf s)
send_calls-Serves count [] n (suc rest) buf s fits h = absurd (omega (arith, h.1))
send_calls-Serves count (transfer k ∷ answers) n (suc rest) buf s fits h =
    let size = min k (suc rest) in
    let (left, serves, e) =
      send_calls-Serves count answers (n + size) (suc rest - size) buf
        (after_send (take size (drop n buf)) s) (omega arith) (h.0, omega (arith, h.1)) in
    (left, serves, Sent-transfer k answers left n (suc rest) buf s (omega arith) fits e)
send_calls-Serves count (interrupted ∷ answers) n (suc rest) buf s fits h =
    let (left, serves, e) = send_calls-Serves count answers n (suc rest) buf s fits h in
    (left, serves, send_calls-interrupted answers n (n + suc rest) buf s (omega arith) fits ∙ e)
send_calls-Serves count (refused e ∷ answers) n (suc rest) buf s fits h =
    absurd (ground (arith, h.0))

pub send_loop-Serves :
    (count len : ℕ) (buf : List ℕ) (s : Socket)
    → len ≤ length buf
    → Serves (count + len) s.answers
    → (left : List Answer) × Serves count left
      × (send_loop buf len s
          ≡ (done tt, record s { outgoing = s.outgoing ++ take len buf; answers = left }))
unfolding send_loop
send_loop-Serves count len buf s fits h =
    let e : 0 + len ≡ len = omega arith in
    rw e at (send_calls-Serves count s.answers 0 len buf s (omega arith) h)

-- With no answer, or an error, no loop that has a byte to send is done.
send_calls-stopped :
    (answers : List Answer) (n rest : ℕ) (buf : List ℕ) (s : Socket)
    → is_stopped answers ≡ true
    → ¬ ((send_calls answers n (n + suc rest) buf s).0 ≡ done tt)
unfolding send_calls
send_calls-stopped [] n rest buf s e h = ground arith
send_calls-stopped (refused e ∷ answers) n rest buf s stopped h = ground arith
send_calls-stopped (transfer k ∷ answers) n rest buf s e h = ground arith
send_calls-stopped (interrupted ∷ answers) n rest buf s e h = ground arith

send_calls-done :
    (answers : List Answer) (n rest : ℕ) (buf : List ℕ) (s : Socket)
    → n + rest ≤ length buf
    → (send_calls answers n (n + rest) buf s).0 ≡ done tt
    → (left : List Answer) × Sent answers n rest buf s left
send_calls-done answers n zero buf s fits h = (answers, Sent-zero answers n buf s)
send_calls-done [] n (suc rest) buf s fits h = absurd (send_calls-stopped [] n rest buf s refl h)
send_calls-done (transfer k ∷ answers) n (suc rest) buf s fits h =
    let size = min k (suc rest) in
    let step = send_calls-transfer k answers n (suc rest) buf s (omega arith) fits in
    let (left, e) =
      send_calls-done answers (n + size) (suc rest - size) buf
        (after_send (take size (drop n buf)) s) (omega arith)
        (sym (ap (λ (r : Outcome (Unit {0}) × Socket). r.0) step) ∙ h) in
    (left, Sent-transfer k answers left n (suc rest) buf s (omega arith) fits e)
send_calls-done (interrupted ∷ answers) n (suc rest) buf s fits h =
    let step = send_calls-interrupted answers n (n + suc rest) buf s (omega arith) fits in
    let (left, e) =
      send_calls-done answers n (suc rest) buf s fits
        (sym (ap (λ (r : Outcome (Unit {0}) × Socket). r.0) step) ∙ h) in
    (left, step ∙ e)
send_calls-done (refused e ∷ answers) n (suc rest) buf s fits h =
    absurd (send_calls-stopped (refused e ∷ answers) n rest buf s refl h)

pub send_loop-done :
    (len : ℕ) (buf : List ℕ) (s : Socket)
    → len ≤ length buf
    → (send_loop buf len s).0 ≡ done tt
    → (left : List Answer) × (send_loop buf len s
        ≡ (done tt, record s { outgoing = s.outgoing ++ take len buf; answers = left }))
unfolding send_loop
send_loop-done len buf s fits h =
    let e : 0 + len ≡ len = omega arith in
    rw e at (send_calls-done s.answers 0 len buf s (omega arith) (rw e h))
