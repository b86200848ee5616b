-- ===== src/Executer/Messages.antt =====
-- Numbers and texts that one side sends arrive on the other side.
use aws_nitro_enclaves_cli.Common.{
  ℕ, zero, suc, ◌+◌, ◌≤◌, ◌<◌, ◌≡◌, refl, sym, ap, ◌∙◌, true, List, [], ◌∷◌, ◌++◌, arith, length,
  take, drop, replicate, ◌^◌, length-append, take-append, drop-append,
}
use mathlib.Core.List.{append_assoc}
use aws_nitro_enclaves_cli.Executer.{done}
use aws_nitro_enclaves_cli.Executer.Socket.{
  Answer, Socket, send_loop, recv_loop, send_u64, recv_u64,
}
use aws_nitro_enclaves_cli.Executer.Buffer.{Serves}
use aws_nitro_enclaves_cli.Executer.Receive.{Reads, recv_loop-Serves}
use aws_nitro_enclaves_cli.Executer.Send.{send_loop-Serves}
use aws_nitro_enclaves_cli.Wire.{to_le_bytes}
use aws_nitro_enclaves_cli.Wire.RoundTrip.{from_le_bytes-to_le_bytes, length-to_le_bytes}
use aws_nitro_enclaves_cli.Executer.FileSent.{sent}
use aws_nitro_enclaves_cli.Executer.Utf8.{is_utf8}
use aws_nitro_enclaves_cli.Executer.Process.{
  on_socket, new_buffer, send_text, recv_text, Process, buf_max_len,
}

length-replicate : (n a : ℕ) → length (replicate n a) ≡ n
length-replicate zero a = refl
length-replicate (suc n) a = ap suc (length-replicate n a)

pub length-new_buffer : length new_buffer ≡ buf_max_len
unfolding new_buffer
length-new_buffer = length-replicate buf_max_len 0

-- A number as `send_u64` sends it, and a text behind its length.
abbrev pub u64_bytes : ℕ → List ℕ
u64_bytes val = to_le_bytes 8 val ++ (0 ∷ [])

abbrev pub message : List ℕ → List ℕ
message text = u64_bytes (length text) ++ text

length-u64_bytes : (val : ℕ) → length (u64_bytes val) ≡ 9
length-u64_bytes val =
    omega (arith, length-append (to_le_bytes 8 val) (0 ∷ []), length-to_le_bytes 8 val)

-- A process with only `rest` still to be read.
abbrev pub reading : List ℕ → List Answer → Process → Process
reading rest left p = record p { socket = record p.socket { incoming = rest; answers = left } }

take-prefix : (n : ℕ) (xs rest : List ℕ) → length xs ≡ n → take n (xs ++ rest) ≡ xs
take-prefix n xs rest e = rw (sym e) (take-append xs rest)

drop-prefix : (n : ℕ) (xs rest : List ℕ) → length xs ≡ n → drop n (xs ++ rest) ≡ rest
drop-prefix n xs rest e = rw (sym e) (drop-append xs rest)

take-all : (xs : List ℕ) → take (length xs) xs ≡ xs
take-all [] = refl
take-all (x ∷ xs) = ap (λ (t : List ℕ). x ∷ t) (take-all xs)

pub send_bytes-Serves :
    (count : ℕ) (bytes : List ℕ) (p : Process)
    → Serves (count + length bytes) p.socket.answers
    → (left : List Answer) × Serves count left
      × (on_socket (send_loop bytes (length bytes)) p ≡ (done tt, sent bytes left p))
send_bytes-Serves count bytes p h =
    let (left, serves, e) = send_loop-Serves count (length bytes) bytes p.socket (omega arith) h in
    (left, serves, rw (e, take-all bytes) refl)

pub send_u64-Serves :
    (count val : ℕ) (p : Process)
    → Serves (count + 9) p.socket.answers
    → (left : List Answer) × Serves count left
      × (on_socket (send_u64 val) p ≡ (done tt, sent (u64_bytes val) left p))
unfolding send_u64
send_u64-Serves count val p h =
    let l = length-u64_bytes val in
    let (left, serves, e) = send_bytes-Serves count (u64_bytes val) p (rw l h) in
    (left, serves, rw l at e)

pub send_text-Serves :
    (count : ℕ) (text : List ℕ) (p : Process)
    → Serves (count + length text + 9) p.socket.answers
    → (left : List Answer) × Serves count left
      × (send_text text p ≡ (done tt, sent (message text) left p))
unfolding send_text
send_text-Serves count text p h =
    let (left, serves, e) = send_u64-Serves (count + length text) (length text) p h in
    let (left', serves', e') =
      send_bytes-Serves count text (sent (u64_bytes (length text)) left p) serves in
    (left', serves', rw (e, e', append_assoc) refl)

Reads-append :
    (left : List Answer) (bytes rest buf : List ℕ) (s : Socket)
    → s.incoming ≡ bytes ++ rest
    → Reads (length bytes) buf s left
    → recv_loop buf (length bytes) s
      ≡ (done (bytes ++ drop (length bytes) buf), record s { incoming = rest; answers = left })
Reads-append left bytes rest buf s arrives e =
    let n = length bytes in
    e
    ∙ ap
        (λ (t : List ℕ).
          (done (take n t ++ drop n buf), record s { incoming = drop n t; answers = left }))
        arrives
    ∙ rw (take-append bytes rest, drop-append bytes rest) refl

pub recv_bytes-Serves :
    (count : ℕ) (bytes rest buf : List ℕ) (s : Socket)
    → length bytes ≤ length buf
    → s.incoming ≡ bytes ++ rest
    → Serves (count + length bytes) s.answers
    → (left : List Answer) × Serves count left
      × (recv_loop buf (length bytes) s
          ≡ (done (bytes ++ drop (length bytes) buf), record s { incoming = rest; answers = left }))
recv_bytes-Serves count bytes rest buf s fits arrives h =
    let (left, serves, e) =
      recv_loop-Serves count (length bytes) buf s fits
        (omega (arith, ap length arrives, length-append bytes rest)) h in
    (left, serves, Reads-append left bytes rest buf s arrives e)

recv_u64-socket :
    (count val : ℕ) (rest : List ℕ) (s : Socket)
    → val < 2 ^ 64
    → s.incoming ≡ u64_bytes val ++ rest
    → Serves (count + 9) s.answers
    → (left : List Answer) × Serves count left
      × (recv_u64 s ≡ (done val, record s { incoming = rest; answers = left }))
unfolding recv_u64
recv_u64-socket count val rest s small arrives h =
    let l = length-u64_bytes val in
    let (left, serves, e) =
      recv_bytes-Serves count (u64_bytes val) rest (replicate 9 0) s (omega (arith, l)) arrives
        (rw l h) in
    let read : recv_loop (replicate 9 0) 9 s
        ≡ (done (u64_bytes val ++ []), record s { incoming = rest; answers = left }) =
      rw l at e in
    (
      left,
      serves,
      rw
          (
            read,
            append_assoc,
            take-prefix 8 (to_le_bytes 8 val) (0 ∷ []) (length-to_le_bytes 8 val),
            from_le_bytes-to_le_bytes 8 val (omega (arith, small)),
          )
          refl,
    )

pub recv_u64-Serves :
    (count val : ℕ) (rest : List ℕ) (p : Process)
    → val < 2 ^ 64
    → p.socket.incoming ≡ u64_bytes val ++ rest
    → Serves (count + 9) p.socket.answers
    → (left : List Answer) × Serves count left
      × (on_socket recv_u64 p ≡ (done val, reading rest left p))
recv_u64-Serves count val rest p small arrives h =
    let (left, serves, e) = recv_u64-socket count val rest p.socket small arrives h in
    (left, serves, rw e refl)

pub recv_text-Serves :
    (count : ℕ) (text rest : List ℕ) (p : Process)
    → length text ≤ buf_max_len
    → is_utf8 text ≡ true
    → p.socket.incoming ≡ message text ++ rest
    → Serves (count + length text + 9) p.socket.answers
    → (left : List Answer) × Serves count left
      × (recv_text p ≡ (done (text, text ++ drop (length text) new_buffer), reading rest left p))
unfolding recv_text
recv_text-Serves count text rest p fits valid arrives h =
    let (left, serves, e) =
      recv_u64-Serves (count + length text) (length text) (text ++ rest) p (omega arith)
        (arrives ∙ append_assoc (u64_bytes (length text)) text rest) h in
    let (left', serves', e') =
      recv_bytes-Serves count text rest new_buffer (reading (text ++ rest) left p).socket
        (omega (arith, length-new_buffer)) refl serves in
    (left', serves', rw (e, e', take-append text (drop (length text) new_buffer), valid) refl)
