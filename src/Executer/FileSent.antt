-- ===== src/Executer/FileSent.antt =====
-- The loop that sends a file sends its bytes.
use aws_nitro_enclaves_cli.Common.{
  ℕ, zero, suc, ◌+◌, ◌-◌, ◌≤◌, ◌<◌, ◌≡◌, refl, ap, ◌∙◌, List, [], ◌∷◌, ◌++◌, arith, min, length,
  take, drop, lt→ltb, le→leb, length-drop, take-append-drop,
}
use mathlib.Core.List.{append_assoc, append-nil}
use aws_nitro_enclaves_cli.Executer.{done}
use aws_nitro_enclaves_cli.Executer.Socket.{Answer}
use aws_nitro_enclaves_cli.Executer.Buffer.{Serves}
use aws_nitro_enclaves_cli.Executer.Receive.{store-front, front_of_buffer, length-buffer}
use aws_nitro_enclaves_cli.Executer.Send.{send_loop-Serves}
use aws_nitro_enclaves_cli.Executer.Process.{
  Process, buf_max_len, send_piece, send_contents, read_file,
}

-- What a process that has sent the next `bytes` is.
abbrev pub sent : List ℕ → List Answer → Process → Process
sent bytes left p = record p {
  socket = record p.socket { outgoing = p.socket.outgoing ++ bytes; answers = left };
}

send_piece-Serves :
    (count size : ℕ) (remaining buf : List ℕ) (p : Process)
    → size ≤ length remaining
    → size ≤ length buf
    → Serves (count + size) p.socket.answers
    → (left : List Answer) × Serves count left
      × (send_piece size remaining buf p
          ≡ (done (take size remaining ++ drop size buf), sent (take size remaining) left p))
unfolding send_piece read_file
send_piece-Serves count size remaining buf p enough fits h =
    let full = take size remaining ++ drop size buf in
    let (left, serves, e) =
      send_loop-Serves count size full p.socket
        (omega (arith, length-buffer size remaining buf enough fits)) h in
    (
      left,
      serves,
      rw
          (
            store-front size remaining buf enough,
            le→leb size (length remaining) enough,
            e,
            front_of_buffer size remaining buf enough,
          )
          refl,
    )

send_contents-over :
    (fuel filesize : ℕ) (remaining buf : List ℕ) (p : Process)
    → send_contents fuel filesize filesize remaining buf p ≡ (done tt, p)
unfolding send_contents
send_contents-over zero filesize remaining buf p = refl
send_contents-over (suc fuel) filesize remaining buf p = ground arith

send_contents-round :
    (fuel progress n : ℕ) (remaining buf full : List ℕ) (p q : Process)
    → 0 < n
    → let size = min buf_max_len n in
      send_piece size remaining buf p ≡ (done full, q)
      → send_contents (suc fuel) (progress + n) progress remaining buf p
        ≡ send_contents fuel
            (progress + size + (n - size))
            (progress + size)
            (drop size remaining)
            full
            q
unfolding send_contents
send_contents-round fuel progress n remaining buf full p q more e =
    let size = min buf_max_len n in
    let d : progress + n - progress ≡ n = omega arith in
    let total : progress + size + (n - size) ≡ progress + n = omega arith in
    rw (total, d, lt→ltb progress (progress + n) (omega arith), e) refl

sent-sent :
    (size : ℕ) (remaining : List ℕ) (left left' : List Answer) (p : Process)
    → sent (drop size remaining) left' (sent (take size remaining) left p) ≡ sent remaining left' p
sent-sent size remaining left left' p = rw (append_assoc, take-append-drop size remaining) refl

-- The rounds that are left send on where a round has stopped.
send_contents-go_on :
    (fuel progress n : ℕ) (remaining buf full : List ℕ) (left left' : List Answer) (p : Process)
    → 0 < n
    → let size = min buf_max_len n in
      send_piece size remaining buf p ≡ (done full, sent (take size remaining) left p)
      → send_contents fuel
          (progress + size + (n - size))
          (progress + size)
          (drop size remaining)
          full
          (sent (take size remaining) left p)
        ≡ (done tt, sent (drop size remaining) left' (sent (take size remaining) left p))
      → send_contents (suc fuel) (progress + n) progress remaining buf p
        ≡ (done tt, sent remaining left' p)
send_contents-go_on fuel progress n remaining buf full left left' p more piece e =
    send_contents-round fuel progress n remaining buf full p
      (sent (take (min buf_max_len n) remaining) left p) more piece
    ∙ e
    ∙ ap (λ (q : Process). (done tt, q)) (sent-sent (min buf_max_len n) remaining left left' p)

abbrev Sends : ℕ → ℕ → ℕ → ℕ → List ℕ → List ℕ → Process → Type 0
Sends count fuel progress n remaining buf p =
    (left : List Answer) × Serves count left
    × (send_contents fuel (progress + n) progress remaining buf p
        ≡ (done tt, sent remaining left p))

empty : (xs : List ℕ) → length xs ≡ 0 → xs ≡ []
empty [] h = refl
empty (x ∷ xs) h = absurd (omega arith)

-- A process that is served sends what is left of a file.
pub send_contents-Serves :
    (count fuel progress n : ℕ) (remaining buf : List ℕ) (p : Process)
    → n ≤ fuel
    → length buf ≡ buf_max_len
    → length remaining ≡ n
    → Serves (count + n) p.socket.answers
    → Sends count fuel progress n remaining buf p
send_contents-Serves count fuel progress zero remaining buf p small whole size_is h =
    let e : progress + 0 ≡ progress = omega arith in
    (
      p.socket.answers,
      (h.0, omega (arith, h.1)),
      rw (e, send_contents-over fuel progress remaining buf p, empty remaining size_is, append-nil)
          refl,
    )
send_contents-Serves count zero progress (suc n) remaining buf p small whole size_is h =
    absurd (omega arith)
send_contents-Serves count (suc fuel) progress (suc n) remaining buf p small whole size_is h =
    let size = min buf_max_len (suc n) in
    let full = take size remaining ++ drop size buf in
    let (left, serves, piece) =
      send_piece-Serves (count + (suc n - size)) size remaining buf p (omega (arith, size_is))
        (omega (arith, whole)) (h.0, omega (arith, h.1)) in
    let (left', serves', e) =
      send_contents-Serves count fuel (progress + size) (suc n - size) (drop size remaining) full
        (sent (take size remaining) left p) (omega arith)
        (length-buffer size remaining buf (omega (arith, size_is)) (omega (arith, whole)) ∙ whole)
        (omega (arith, length-drop size remaining, size_is)) serves in
    (
      left',
      serves',
      send_contents-go_on fuel progress (suc n) remaining buf full left left' p (omega arith) piece
          e,
    )
