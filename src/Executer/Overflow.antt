-- ===== src/Executer/Overflow.antt =====
-- Lengths that do not fit the server's buffer, and pieces of an output that are no text.
use aws_nitro_enclaves_cli.Common.{
  ℕ, suc, ◌^◌, ◌<◌, ◌≡◌, refl, sym, ap, ◌∙◌, false, List, [], ◌∷◌, ◌++◌, arith, length, take, drop,
  lt→ltb, length-take, take-append, take-append-drop, min,
}
use mathlib.Core.List.{append_assoc}
use aws_nitro_enclaves_cli.Executer.{Outcome, done, failed, panicked, not_utf8}
use aws_nitro_enclaves_cli.Executer.Utf8.{is_utf8}
use aws_nitro_enclaves_cli.Executer.Socket.{
  Answer, transfer, interrupted, refused, Socket, recv_calls, recv_loop,
}
use aws_nitro_enclaves_cli.Executer.Buffer.{Serves}
use aws_nitro_enclaves_cli.Executer.Process.{System, Process, buf_max_len, new_buffer, recv_text}
use aws_nitro_enclaves_cli.Executer.Messages.{
  u64_bytes, reading, length-new_buffer, recv_u64-Serves, recv_bytes-Serves,
}
use aws_nitro_enclaves_cli.Executer.Served.{serve_connection-request}
use aws_nitro_enclaves_cli.Executer.Client.{receive_output}
use aws_nitro_enclaves_cli.Executer.Server.{
  CmdId, cmd_id, run_server, recv_file_server, send_file_server, serve, Accepted, connection,
  accept_loop,
}

recv_calls-too_long :
    (answers : List Answer) (len : ℕ) (buf : List ℕ) (s : Socket)
    → length buf < len
    → (recv_calls answers 0 len buf s).0 ≡ panicked
unfolding recv_calls
recv_calls-too_long [] len buf s h = ground arith
recv_calls-too_long (transfer k ∷ answers) len buf s h = ground arith
recv_calls-too_long (interrupted ∷ answers) len buf s h = ground arith
recv_calls-too_long (refused e ∷ answers) len buf s h = ground arith

panicked_pair : {A : Type 0} (r : Outcome A × Socket) → r.0 ≡ panicked → r ≡ (panicked, r.1)
panicked_pair {A = A} r h = ap (λ (x : Outcome A). (x, r.1)) h

recv_text-too_long :
    (len : ℕ) (rest : List ℕ) (p : Process)
    → buf_max_len < len
    → len < 2 ^ 64
    → p.socket.incoming ≡ u64_bytes len ++ rest
    → Serves 9 p.socket.answers
    → (q : Process) × (recv_text p ≡ (panicked, q))
unfolding recv_text recv_loop
recv_text-too_long len rest p long small arrives h =
    let (left, serves, e) = recv_u64-Serves 0 len rest p small arrives (h.0, omega (arith, h.1)) in
    let t = (reading rest left p).socket in
    let r = recv_calls left 0 len new_buffer t in
    let stops = recv_calls-too_long left len new_buffer t (omega (arith, length-new_buffer)) in
    (record (reading rest left p) { socket = r.1 }, rw (e, panicked_pair r stops) refl)

module _ (sys : System) where
  serve-panicked :
      (id : CmdId) (p q : Process) → recv_text p ≡ (panicked, q) → serve sys id p ≡ (panicked, q)
  unfolding serve run_server recv_file_server send_file_server
  serve-panicked CmdId.run_cmd p q e = rw e refl
  serve-panicked CmdId.recv_file p q e = rw e refl
  serve-panicked CmdId.send_file p q e = rw e refl
  serve-panicked CmdId.run_cmd_no_wait p q e = rw e refl

  -- A connection whose kernel answers without an error, and often enough for two numbers, and whose peer
  -- sends the number of a command and then a length above the 8192 bytes of the buffer: whatever the command,
  -- the server panics on it, and the loop ends whatever connections would follow.
  pub accept_loop-too_long :
      (id : CmdId) (len : ℕ) (rest : List ℕ) (accepted : List Accepted) (socket : Socket)
      (p : Process)
      → buf_max_len < len
      → len < 2 ^ 64
      → socket.incoming ≡ u64_bytes (cmd_id id) ++ (u64_bytes len ++ rest)
      → Serves 18 socket.answers
      → (accept_loop sys (connection socket ∷ accepted) p).0 ≡ panicked
  unfolding accept_loop
  accept_loop-too_long id len rest accepted socket p long small arrives h =
      let s = record p { socket = socket; open_sockets = suc p.open_sockets } in
      let (left, serves, e) =
        serve_connection-request sys 9 id (u64_bytes len ++ rest) s arrives h in
      let (q, stops) =
        recv_text-too_long len rest (reading (u64_bytes len ++ rest) left s) long small refl
          serves in
      rw (accept_loop, e ∙ serve-panicked id (reading (u64_bytes len ++ rest) left s) q stops) refl

-- A client whose kernel answers without an error, and often enough: where the first piece of the output, of
-- at most 8192 bytes, is no text by itself, it is refused, whether or not the whole output is a text.
pub receive_output-not_utf8 :
    (fuel : ℕ) (bytes rest buf json_output : List ℕ) (p : Process)
    → 0 < length bytes
    → length buf ≡ buf_max_len
    → p.socket.incoming ≡ bytes ++ rest
    → is_utf8 (take (min buf_max_len (length bytes)) bytes) ≡ false
    → Serves (length bytes) p.socket.answers
    → (receive_output (suc fuel) (length bytes) buf json_output p).0 ≡ failed not_utf8
unfolding receive_output
receive_output-not_utf8 fuel bytes rest buf json_output p more whole arrives broken h =
    let size = min buf_max_len (length bytes) in
    let front = take size bytes in
    let l : length front ≡ size = omega (arith, length-take size bytes) in
    let (left, serves, e) =
      recv_bytes-Serves 0 front (drop size bytes ++ rest) buf p.socket (omega (arith, l, whole))
        (arrives
          ∙ rw (sym (append_assoc front (drop size bytes) rest), take-append-drop size bytes) refl)
        (h.0, omega (arith, h.1, l)) in
    let first : take size (front ++ drop (length front) buf) ≡ front =
      ap (λ (n : ℕ). take n (front ++ drop (length front) buf)) (sym l)
      ∙ take-append front (drop (length front) buf) in
    let read : recv_loop buf size p.socket ≡ (
      done (front ++ drop (length front) buf),
      (reading (drop size bytes ++ rest) left p).socket,
    ) =
      ap (λ (n : ℕ). recv_loop buf n p.socket) (sym l) ∙ e in
    rw (lt→ltb 0 (length bytes) more, read, first, broken) refl
