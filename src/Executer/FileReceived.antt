-- ===== src/Executer/FileReceived.antt =====
-- The loop that receives a file writes the bytes that were sent into it.
use aws_nitro_enclaves_cli.Common.{
  ℕ, zero, suc, ◌+◌, ◌-◌, ◌≤◌, ◌<◌, ◌≡◌, refl, ap, ◌∙◌, some, List, [], ◌∷◌, ◌++◌, arith, min,
  length, take, drop, lt→ltb, length-take, length-drop,
}
use mathlib.Core.List.{append_assoc, append-nil}
use aws_nitro_enclaves_cli.Text.{same_text_iff}
use aws_nitro_enclaves_cli.Executer.{done}
use aws_nitro_enclaves_cli.Executer.Socket.{Answer}
use aws_nitro_enclaves_cli.Executer.Buffer.{Serves, take-take-drop, drop-twice}
use aws_nitro_enclaves_cli.Executer.Receive.{
  Reads, recv_loop-Serves, front_of_buffer, length-buffer,
}
use aws_nitro_enclaves_cli.Executer.Process.{
  Process, lookup, insert, buf_max_len, append_file, receive_piece, receive_contents,
}

insert-same :
    (path contents : List ℕ) (files : List (List ℕ × List ℕ))
    → lookup path files ≡ some contents
    → insert path contents files ≡ files
unfolding insert lookup
insert-same path contents [] h = absurd (ground arith)
insert-same path contents ((name, old) ∷ files) h = ground (arith, insert-same path contents files)

pub insert-insert :
    (path a b : List ℕ) (files : List (List ℕ × List ℕ))
    → insert path b (insert path a files) ≡ insert path b files
unfolding insert
insert-insert path a b [] = ground (arith, same_text_iff path path)
insert-insert path a b ((name, old) ∷ files) = ground (arith, insert-insert path a b files)

pub lookup-insert :
    (path a : List ℕ) (files : List (List ℕ × List ℕ)) → lookup path (insert path a files) ≡ some a
unfolding insert lookup
lookup-insert path a [] = ground (arith, same_text_iff path path)
lookup-insert path a ((name, old) ∷ files) = ground (arith, lookup-insert path a files)

-- What a process that has received the next `size` bytes into a file is.
abbrev pub received : ℕ → List ℕ → List ℕ → List Answer → Process → Process
received size path old left p = record p {
  socket = record p.socket { incoming = drop size p.socket.incoming; answers = left };
  files = insert path (old ++ take size p.socket.incoming) p.files;
  room = p.room - size;
}

receive_piece-Reads :
    (size : ℕ) (path old buf : List ℕ) (left : List Answer) (p : Process)
    → size ≤ p.room
    → size ≤ length p.socket.incoming
    → lookup path p.files ≡ some old
    → Reads size buf p.socket left
    → receive_piece size path buf p
      ≡ (done (take size p.socket.incoming ++ drop size buf), received size path old left p)
unfolding receive_piece append_file
receive_piece-Reads size path old buf left p room enough found reads =
    let incoming = p.socket.incoming in
    let l : length (take size incoming) ≡ size = omega (arith, length-take size incoming) in
    rw (reads, front_of_buffer size incoming buf enough, found, l) (ground arith)

receive_contents-round :
    (fuel progress n : ℕ) (path old buf : List ℕ) (left : List Answer) (p : Process)
    → 0 < n
    → let size = min buf_max_len n in
      size ≤ p.room
      → size ≤ length p.socket.incoming
      → lookup path p.files ≡ some old
      → Reads size buf p.socket left
      → receive_contents (suc fuel) (progress + n) progress path buf p
        ≡ receive_contents fuel
            (progress + size + (n - size))
            (progress + size)
            path
            (take size p.socket.incoming ++ drop size buf)
            (received size path old left p)
unfolding receive_contents
receive_contents-round fuel progress n path old buf left p more room enough found reads =
    let size = min buf_max_len n in
    let d : progress + n - progress ≡ n = omega arith in
    let total : progress + size + (n - size) ≡ progress + n = omega arith in
    rw
      (
        total,
        d,
        lt→ltb progress (progress + n) (omega arith),
        receive_piece-Reads size path old buf left p room enough found reads,
      )
      refl

receive_contents-over :
    (fuel filesize : ℕ) (path buf : List ℕ) (p : Process)
    → receive_contents fuel filesize filesize path buf p ≡ (done tt, p)
unfolding receive_contents
receive_contents-over zero filesize path buf p = refl
receive_contents-over (suc fuel) filesize path buf p = ground arith

-- Two pieces one after the other are one piece.
received-received :
    (size n : ℕ) (path old : List ℕ) (left left' : List Answer) (p : Process)
    → size ≤ n
    → received
        (n - size)
        path
        (old ++ take size p.socket.incoming)
        left'
        (received size path old left p)
      ≡ received n path old left' p
received-received size n path old left left' p less =
    let room : p.room - size - (n - size) ≡ p.room - n = omega arith in
    rw
      (
        room,
        drop-twice size n p.socket.incoming less,
        insert-insert path (old ++ take size p.socket.incoming)
            (old ++ take size p.socket.incoming ++ take (n - size) (drop size p.socket.incoming))
            p.files,
        append_assoc,
        take-take-drop size n p.socket.incoming less,
      )
      refl

received-zero :
    (path old : List ℕ) (p : Process)
    → lookup path p.files ≡ some old
    → received 0 path old p.socket.answers p ≡ p
received-zero path old p found =
    let e : p.room - 0 ≡ p.room = omega arith in
    rw (e, append-nil, insert-same path old p.files found) refl

-- The rounds that are left receive on where a round has stopped.
receive_contents-go_on :
    (fuel progress n : ℕ) (path old buf : List ℕ) (left left' : List Answer) (p : Process)
    → 0 < n
    → let size = min buf_max_len n in
      size ≤ p.room
      → size ≤ length p.socket.incoming
      → lookup path p.files ≡ some old
      → Reads size buf p.socket left
      → receive_contents fuel
          (progress + size + (n - size))
          (progress + size)
          path
          (take size p.socket.incoming ++ drop size buf)
          (received size path old left p)
        ≡ (
          done tt,
          received
              (n - size)
              path
              (old ++ take size p.socket.incoming)
              left'
              (received size path old left p),
        )
      → receive_contents (suc fuel) (progress + n) progress path buf p
        ≡ (done tt, received n path old left' p)
receive_contents-go_on fuel progress n path old buf left left' p more room enough found reads e =
    receive_contents-round fuel progress n path old buf left p more room enough found reads
    ∙ e
    ∙ ap (λ (q : Process). (done tt, q))
        (received-received (min buf_max_len n) n path old left left' p (omega arith))

abbrev Receives : ℕ → ℕ → ℕ → ℕ → List ℕ → List ℕ → List ℕ → Process → Type 0
Receives count fuel progress n path old buf p =
    (left : List Answer) × Serves count left
    × (receive_contents fuel (progress + n) progress path buf p
        ≡ (done tt, received n path old left p))

-- A process that is served receives the next `n` bytes into the file.
pub receive_contents-Serves :
    (count fuel progress n : ℕ) (path old buf : List ℕ) (p : Process)
    → n ≤ fuel
    → length buf ≡ buf_max_len
    → n ≤ p.room
    → n ≤ length p.socket.incoming
    → lookup path p.files ≡ some old
    → Serves (count + n) p.socket.answers
    → Receives count fuel progress n path old buf p
receive_contents-Serves count fuel progress zero path old buf p small whole room enough found h =
    let e : progress + 0 ≡ progress = omega arith in
    (
      p.socket.answers,
      (h.0, omega (arith, h.1)),
      rw (e, receive_contents-over fuel progress path buf p, received-zero path old p found) refl,
    )
receive_contents-Serves count zero progress (suc n) path old buf p small whole room enough found h =
    absurd (omega arith)
receive_contents-Serves count (suc fuel) progress (suc n) path old buf p small whole room enough
      found h =
    let size = min buf_max_len (suc n) in
    let incoming = p.socket.incoming in
    let full = take size incoming ++ drop size buf in
    let (left, serves, reads) =
      recv_loop-Serves (count + (suc n - size)) size buf p.socket (omega (arith, whole))
        (omega arith) (h.0, omega (arith, h.1)) in
    let (left', serves', e) =
      receive_contents-Serves count fuel (progress + size) (suc n - size) path
        (old ++ take size incoming) full (received size path old left p) (omega arith)
        (length-buffer size incoming buf (omega arith) (omega (arith, whole)) ∙ whole) (omega arith)
        (omega (arith, length-drop size incoming))
        (lookup-insert path (old ++ take size incoming) p.files) serves in
    (
      left',
      serves',
      receive_contents-go_on fuel progress (suc n) path old buf left left' p (omega arith)
          (omega arith) (omega arith) found reads e,
    )
