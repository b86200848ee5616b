-- ===== src/Executer/Stored.antt =====
-- A file behind its size, as both sides receive it.
use aws_nitro_enclaves_cli.Common.{
  ℕ, ◌+◌, ◌-◌, ◌≤◌, ◌<◌, ◌≡◌, refl, ap, ◌∙◌, List, [], ◌++◌, arith, length, take, drop, ◌^◌,
  length-append, take-append, drop-append,
}
use mathlib.Core.List.{append_assoc}
use aws_nitro_enclaves_cli.Executer.{done, Io, ◌>>=◌}
use aws_nitro_enclaves_cli.Executer.Socket.{Answer, recv_u64}
use aws_nitro_enclaves_cli.Executer.Buffer.{Serves}
use aws_nitro_enclaves_cli.Executer.Process.{
  on_socket, Process, insert, buf_max_len, receive_contents,
}
use aws_nitro_enclaves_cli.Executer.Messages.{u64_bytes, message, reading, recv_u64-Serves}
use aws_nitro_enclaves_cli.Executer.FileReceived.{
  received, receive_contents-Serves, lookup-insert, insert-insert,
}

-- A process whose file of that name has become empty.
abbrev pub with_empty : List ℕ → Process → Process
with_empty path p = record p { files = insert path [] p.files }

-- What `bytes` at the front of what the peer sends make of an empty file.
received_front :
    (path bytes rest : List ℕ) (left : List Answer) (p : Process)
    → p.socket.incoming ≡ bytes ++ rest
    → received (length bytes) path [] left (with_empty path p) ≡ record p {
      socket = record p.socket { incoming = rest; answers = left };
      files = insert path bytes p.files;
      room = p.room - length bytes;
    }
received_front path bytes rest left p arrives =
    let n = length bytes in
    ap
      (λ (t : List ℕ). record p {
        socket = record p.socket { incoming = drop n t; answers = left };
        files = insert path (take n t) (insert path [] p.files);
        room = p.room - n;
      })
      arrives
    ∙ rw (take-append bytes rest, drop-append bytes rest, insert-insert path [] bytes p.files) refl

-- A file that the peer sends behind its size arrives as a whole.
abbrev pub stored : List ℕ → List ℕ → List ℕ → List Answer → Process → Process
stored path bytes rest left p = record p {
  socket = record p.socket { incoming = rest; answers = left };
  files = insert path bytes p.files;
  room = p.room - length bytes;
}

unfoldable pub receive_file : List ℕ → List ℕ → Io Process (Unit {0})
receive_file path buf = do
  filesize ← on_socket recv_u64
  receive_contents filesize filesize 0 path buf

pub receive_file-Serves :
    (count : ℕ) (path contents rest buf : List ℕ) (p : Process)
    → length contents < 2 ^ 64
    → length buf ≡ buf_max_len
    → length contents ≤ p.room
    → p.socket.incoming ≡ message contents ++ rest
    → Serves (count + length contents + 9) p.socket.answers
    → (left : List Answer) × Serves count left
      × (receive_file path buf (with_empty path p) ≡ (done tt, stored path contents rest left p))
unfolding receive_file
receive_file-Serves count path contents rest buf p small whole room arrives h =
    let n = length contents in
    let (left, serves, e) =
      recv_u64-Serves (count + n) n (contents ++ rest) (with_empty path p) small
        (arrives ∙ append_assoc (u64_bytes n) contents rest) h in
    let p1 = reading (contents ++ rest) left p in
    let (left1, serves1, e1) =
      receive_contents-Serves count n 0 n path [] buf (with_empty path p1) (omega arith) whole room
        (omega (arith, length-append contents rest)) (lookup-insert path [] p.files) serves in
    let z : 0 + n ≡ n = omega arith in
    (
      left1,
      serves1,
      rw (e) (
          rw z at e1
          ∙ ap (λ (q : Process). (done tt, q)) (received_front path contents rest left1 p1 refl)),
    )
