-- ===== src/Executer/Commands.antt =====
-- The commands that run a program, between the client and the server.
use aws_nitro_enclaves_cli.Common.{
  ℕ, zero, suc, ◌&&◌, ◌+◌, ◌-◌, ◌≤◌, ◌<◌, ◌≡◌, refl, sym, ap, ◌∙◌, Bool, true, List, [], ◌∷◌, ◌++◌,
  arith, min, length, take, drop, lt→ltb, length-append, length-take, length-drop, take-append-drop,
  take-append,
}
use mathlib.Core.List.{append_assoc, append-nil}
use aws_nitro_enclaves_cli.Executer.{done}
use aws_nitro_enclaves_cli.Executer.Socket.{Answer, recv_loop}
use aws_nitro_enclaves_cli.Executer.Buffer.{Serves}
use aws_nitro_enclaves_cli.Executer.Utf8.{is_utf8}
use aws_nitro_enclaves_cli.Executer.Process.{on_socket, Process, buf_max_len}
use aws_nitro_enclaves_cli.Executer.Messages.{reading}
use aws_nitro_enclaves_cli.Executer.Messages.{recv_bytes-Serves}
use aws_nitro_enclaves_cli.Executer.Client.{receive_output}

-- Each piece of the buffer's length is a text by itself.
unfoldable pub is_text_in_pieces : ℕ → List ℕ → Bool
is_text_in_pieces zero bytes = true
is_text_in_pieces (suc fuel) bytes =
    is_utf8 (take (min buf_max_len (length bytes)) bytes)
    && is_text_in_pieces fuel (drop (min buf_max_len (length bytes)) bytes)

receive_output-round :
    (fuel n : ℕ) (front rest buf acc : List ℕ) (left : List Answer) (p : Process)
    → 0 < n
    → is_utf8 front ≡ true
    → length front ≡ min buf_max_len n
    → on_socket (recv_loop buf (length front)) p
      ≡ (done (front ++ drop (length front) buf), reading rest left p)
    → receive_output (suc fuel) n buf acc p
      ≡ receive_output fuel
          (n - length front)
          (front ++ drop (length front) buf)
          (acc ++ front)
          (reading rest left p)
unfolding receive_output
receive_output-round fuel n front rest buf acc left p more valid l e =
    rw (sym l, lt→ltb 0 n more, e, take-append front (drop (length front) buf), valid) refl

receive_output-over :
    (fuel : ℕ) (buf acc : List ℕ) (p : Process) → receive_output fuel 0 buf acc p ≡ (done acc, p)
unfolding receive_output
receive_output-over zero buf acc p = refl
receive_output-over (suc fuel) buf acc p = ground arith

and-true : (a b : Bool) → (a && b) ≡ true → (a ≡ true) × (b ≡ true)
and-true a b h = ground arith

abbrev pub ReceivesOutput : ℕ → ℕ → List ℕ → List ℕ → List ℕ → List ℕ → Process → Type 0
ReceivesOutput count fuel bytes rest buf acc p =
    (left : List Answer) × Serves count left
    × (receive_output fuel (length bytes) buf acc p ≡ (done (acc ++ bytes), reading rest left p))

-- The rounds that are left receive on where a round has stopped.
receive_output-go_on :
    (fuel size : ℕ) (bytes rest buf acc : List ℕ) (left left' : List Answer) (p : Process)
    → 0 < length bytes
    → size ≡ min buf_max_len (length bytes)
    → is_utf8 (take size bytes) ≡ true
    → on_socket (recv_loop buf (length (take size bytes))) p ≡ (
      done (take size bytes ++ drop (length (take size bytes)) buf),
      reading (drop size bytes ++ rest) left p,
    )
    → receive_output fuel
        (length (drop size bytes))
        (take size bytes ++ drop (length (take size bytes)) buf)
        (acc ++ take size bytes)
        (reading (drop size bytes ++ rest) left p)
      ≡ (done (acc ++ take size bytes ++ drop size bytes), reading rest left' p)
    → receive_output (suc fuel) (length bytes) buf acc p
      ≡ (done (acc ++ bytes), reading rest left' p)
receive_output-go_on fuel size bytes rest buf acc left left' p more size_is valid e e' =
    let l : length (take size bytes) ≡ min buf_max_len (length bytes) =
      omega (arith, length-take size bytes, size_is) in
    let back : length bytes - length (take size bytes) ≡ length (drop size bytes) =
      omega (arith, length-drop size bytes, l, size_is) in
    let whole : acc ++ take size bytes ++ drop size bytes ≡ acc ++ bytes =
      rw (append_assoc, take-append-drop size bytes) refl in
    receive_output-round fuel (length bytes) (take size bytes) (drop size bytes ++ rest) buf acc
      left p more valid l e
    ∙ rw (back, sym whole) e'

-- A client that is served receives an output of which each piece is a text.
pub receive_output-Serves :
    (count fuel : ℕ) (bytes rest buf acc : List ℕ) (p : Process)
    → length bytes ≤ fuel
    → length buf ≡ buf_max_len
    → p.socket.incoming ≡ bytes ++ rest
    → is_text_in_pieces fuel bytes ≡ true
    → Serves (count + length bytes) p.socket.answers
    → ReceivesOutput count fuel bytes rest buf acc p
unfolding is_text_in_pieces
receive_output-Serves count fuel [] rest buf acc p small whole arrives texts h = (
  p.socket.answers,
  (h.0, omega (arith, h.1)),
  receive_output-over fuel buf acc p
      ∙ rw append-nil (ap (λ (t : List ℕ). (done acc, reading t p.socket.answers p)) arrives),
)
receive_output-Serves count zero (x ∷ xs) rest buf acc p small whole arrives texts h =
    absurd (omega arith)
receive_output-Serves count (suc fuel) (x ∷ xs) rest buf acc p small whole arrives texts h =
    let bytes = x ∷ xs in
    let size = min buf_max_len (length bytes) in
    let front = take size bytes in
    let back = drop size bytes in
    let (valid, others) = and-true (is_utf8 front) (is_text_in_pieces fuel back) texts in
    let (left, serves, e) =
      recv_bytes-Serves (count + length back) front (back ++ rest) buf p.socket
        (omega (arith, length-take size bytes, whole))
        (arrives ∙ rw (sym (append_assoc front back rest), take-append-drop size bytes) refl)
        (h.0, omega (arith, h.1, length-take size bytes, length-drop size bytes)) in
    let (left', serves', e') =
      receive_output-Serves count fuel back rest (front ++ drop (length front) buf) (acc ++ front)
        (reading (back ++ rest) left p) (omega (arith, length-drop size bytes))
        (omega (
          arith,
          length-append front (drop (length front) buf),
          length-drop (length front) buf,
          length-take size bytes,
          whole,
        ))
        refl others serves in
    (
      left',
      serves',
      receive_output-go_on fuel size bytes rest buf acc left left' p (omega arith) refl valid
          (rw e refl) e',
    )
