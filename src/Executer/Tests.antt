-- ===== src/Executer/Tests.antt =====
-- A client and a server that copy a small file and run a small command.
use aws_nitro_enclaves_cli.Common.{
  ℕ, ◌+◌, ◌≤◌, ◌≡◌, refl, true, false, Option, none, some, List, [], ◌∷◌, ◌++◌, arith, length,
  replicate,
}
use aws_nitro_enclaves_cli.Common.Int.{pos}
use aws_nitro_enclaves_cli.Failure.{ok}
use aws_nitro_enclaves_cli.Wire.{read_exact, to_le_bytes, from_le_bytes}
use aws_nitro_enclaves_cli.Text.{same_text}
use aws_nitro_enclaves_cli.Executer.{done, failed, panicked, blocked, accept_failed}
use aws_nitro_enclaves_cli.Executer.Utf8.{is_utf8, is_utf8_from}
use aws_nitro_enclaves_cli.Executer.Socket.{
  Answer, transfer, interrupted, Socket, recv_loop, recv_calls, store, send_loop, send_calls,
  send_u64, recv_u64,
}
use aws_nitro_enclaves_cli.Executer.Receive.{recv_loop-read_exact, recv_loop-closed}
use aws_nitro_enclaves_cli.Executer.Process.{
  CommandOutput, System, connects, refuses, Process, lookup, recv_text, send_text, new_buffer,
  open_file, file_size, read_file, send_piece, send_contents,
}
use aws_nitro_enclaves_cli.Executer.Messages.{u64_bytes, message}
use aws_nitro_enclaves_cli.Executer.Served.{request}
use aws_nitro_enclaves_cli.Executer.Server.{
  cmd_id, from_u64, serve, recv_file_server, run_server, execute, new_from, CmdId, connection,
  no_connection, serve_connection, accept_loop,
}
use aws_nitro_enclaves_cli.Executer.Client.{
  recv_file, send_file, run, vsock_connect, attempt_connect, connected,
}
use aws_nitro_enclaves_cli.Executer.Copied.{recv_file-serve_connection, serve_connection-send_file}
use aws_nitro_enclaves_cli.Executer.Commands.{is_text_in_pieces}
use aws_nitro_enclaves_cli.Executer.Ran.{run-serve_connection}
use aws_nitro_enclaves_cli.Executer.Connect.{vsock_connect-bounds}
use aws_nitro_enclaves_cli.Executer.Overflow.{accept_loop-too_long}
use aws_nitro_enclaves_cli.Executer.Descriptors.{accept_loop-open_sockets}

-- Three bytes in two pieces, around an interrupted call.
abbrev in_pieces : Socket
in_pieces = record {
  incoming = 7 ∷ 8 ∷ 9 ∷ 10 ∷ [];
  outgoing = [];
  answers = transfer 2 ∷ interrupted ∷ transfer 100 ∷ [];
}

recv_loop-read_exact_example :
    read_exact 3 in_pieces.incoming
    ≡ (ok (7 ∷ 8 ∷ 9 ∷ []), (recv_loop (replicate 4 0) 3 in_pieces).1.incoming)
unfolding recv_loop recv_calls store
recv_loop-read_exact_example =
    recv_loop-read_exact 3 (replicate 4 0) (7 ∷ 8 ∷ 9 ∷ 0 ∷ []) in_pieces (omega arith) refl

recv_loop-closed_example :
    ((recv_loop (replicate 9 0) 9 in_pieces).0 ≡ blocked)
    × ((recv_loop (replicate 9 0) 9 in_pieces).1.answers ≡ [])
recv_loop-closed_example =
    recv_loop-closed 9 (replicate 9 0) in_pieces (omega arith) (omega arith) refl

-- A command prints "o"; the output is encoded as one byte.
abbrev printed_o : CommandOutput
printed_o = record { stdout = b'o' ∷ []; stderr = []; rc = some (pos 3) }

decode : List ℕ → Option CommandOutput
decode [] = none
decode (b ∷ bytes) = some printed_o

abbrev machine : System
machine = record {
  spawn = λ command. true;
  output = λ command. some record { stdout = b'o' ∷ []; stderr = []; code = some (pos 3) };
  may_create = λ path. true;
  has_metadata = λ path. true;
  json = record { to_vec = λ output. some (b'j' ∷ []); from_slice = decode };
}

-- The kernel moves one byte at a time.
abbrev slow : ℕ → List Answer
slow count = replicate count (transfer 1)

-- "a", "b" and a file of three bytes.
abbrev a_path : List ℕ
a_path = b'a' ∷ []

abbrev b_path : List ℕ
b_path = b'b' ∷ []

abbrev three : List ℕ
three = 1 ∷ 2 ∷ 255 ∷ []

abbrev process : List ℕ → List (List ℕ × List ℕ) → Process
process incoming files = record {
  socket = record { incoming = incoming; outgoing = []; answers = slow 40 };
  files = files;
  room = 1000;
  attempts = connects ∷ [];
  slept = 0;
  open_sockets = 1;
  stdout = [];
  stderr = [];
}

abbrev empty_handed : Process
empty_handed = process (message three) []

abbrev with_file : Process
with_file = process (request CmdId.recv_file b_path) ((b_path, three) ∷ [])

with_file-answers : message three ≡ (serve_connection machine with_file).1.socket.outgoing
unfolding serve_connection recv_u64 to_le_bytes recv_loop recv_calls store from_u64 from_le_bytes
    serve recv_file_server recv_text new_buffer is_utf8 is_utf8_from open_file lookup same_text
    file_size send_u64 read_file send_contents send_piece send_calls send_loop
with_file-answers = refl

recv_file-serve_connection_example :
    ((serve_connection machine with_file).0 ≡ done tt)
    × ((recv_file machine a_path b_path empty_handed).0 ≡ done tt)
    × (lookup a_path (recv_file machine a_path b_path empty_handed).1.files ≡ some three)
    × ((recv_file machine a_path b_path empty_handed).1.socket.outgoing ≡ with_file.socket.incoming)
    × ((recv_file machine a_path b_path empty_handed).1.open_sockets ≡ 1)
unfolding is_utf8 is_utf8_from lookup same_text
recv_file-serve_connection_example =
    recv_file-serve_connection machine machine a_path b_path three empty_handed with_file ([], refl)
      refl (omega arith) (omega arith) (omega arith) refl refl refl (refl, omega arith)
      (refl, omega arith) refl refl refl with_file-answers

abbrev giver : Process
giver = process [] ((a_path, three) ∷ [])

abbrev taker : Process
taker = process (request CmdId.send_file b_path ++ message three) []

giver-asks :
    request CmdId.send_file b_path ++ message three
    ≡ (send_file machine a_path b_path giver).1.socket.outgoing
unfolding send_file open_file to_le_bytes lookup same_text connected vsock_connect attempt_connect
    send_u64 send_loop send_calls send_text file_size send_contents send_piece read_file store
    new_buffer
giver-asks = refl

serve_connection-send_file_example :
    ((send_file machine a_path b_path giver).0 ≡ done tt)
    × ((serve_connection machine taker).0 ≡ done tt)
    × (lookup b_path (serve_connection machine taker).1.files ≡ some three)
    × ((serve_connection machine taker).1.socket.incoming ≡ [])
    × ((send_file machine a_path b_path giver).1.open_sockets ≡ 1)
unfolding is_utf8 is_utf8_from lookup same_text
serve_connection-send_file_example =
    serve_connection-send_file machine machine a_path b_path three giver taker ([], refl) refl refl
      (omega arith) (omega arith) refl refl (omega arith) (refl, omega arith) (refl, omega arith)
      refl giver-asks

abbrev runner : Process
runner = process (request CmdId.run_cmd a_path) []

abbrev asker : Process
asker = process (message (b'j' ∷ [])) []

runner-answers : message (b'j' ∷ []) ≡ (serve_connection machine runner).1.socket.outgoing
unfolding serve_connection recv_u64 to_le_bytes recv_loop recv_calls store from_u64 from_le_bytes
    serve run_server recv_text new_buffer is_utf8 is_utf8_from execute new_from send_text send_u64
    send_calls send_loop
runner-answers = refl

run-serve_connection_example :
    ((serve_connection machine runner).0 ≡ done tt)
    × ((run machine false a_path asker).0 ≡ done (pos 3))
    × ((run machine false a_path asker).1.socket.outgoing ≡ runner.socket.incoming)
    × ((run machine false a_path asker).1.stdout ≡ b'o' ∷ [])
    × ((run machine false a_path asker).1.stderr ≡ [])
    × ((run machine false a_path asker).1.open_sockets ≡ 1)
unfolding is_utf8 is_utf8_from execute new_from is_text_in_pieces decode
run-serve_connection_example =
    run-serve_connection machine machine false a_path (b'j' ∷ []) printed_o asker runner ([], refl)
      (omega arith) refl refl refl refl refl (omega arith) (refl, omega arith) (refl, omega arith)
      refl refl refl runner-answers

-- A client that the server refuses once.
abbrev refused_once : Process
refused_once = record empty_handed { attempts = refuses 111 ∷ connects ∷ [] }

abbrev liar : Socket
liar = record {
  incoming = u64_bytes (cmd_id CmdId.send_file) ++ (u64_bytes 8193 ++ []);
  outgoing = [];
  answers = slow 18;
}

accept_loop-too_long_example :
    (accept_loop machine (connection liar ∷ []) empty_handed).0 ≡ panicked
accept_loop-too_long_example =
    accept_loop-too_long machine CmdId.send_file 8193 [] [] liar empty_handed (omega arith)
      (omega arith) refl (refl, omega arith)

-- A connection with an unknown command, and then no descriptor is left.
abbrev unknown : Socket
unknown = record { incoming = u64_bytes 9; outgoing = []; answers = slow 9 }

unknown-failed :
    (accept_loop machine (connection unknown ∷ no_connection 24 ∷ []) empty_handed).0
    ≡ failed (accept_failed 24)
unfolding accept_loop serve_connection recv_u64 to_le_bytes recv_loop recv_calls store from_u64
    from_le_bytes
unknown-failed = refl

accept_loop-open_sockets_example :
    (accept_loop machine (connection unknown ∷ no_connection 24 ∷ []) empty_handed).1.open_sockets
    ≡ 2
accept_loop-open_sockets_example =
    accept_loop-open_sockets machine (connection unknown ∷ no_connection 24 ∷ []) empty_handed
      (accept_failed 24) unknown-failed

vsock_connect-bounds_example :
    (0 ≤ (vsock_connect refused_once).1.slept)
    × ((vsock_connect refused_once).1.slept ≤ 31)
    × ((vsock_connect refused_once).1.open_sockets ≡ 2)
    × (2 ≤ length (vsock_connect refused_once).1.attempts + 5)
unfolding vsock_connect attempt_connect
vsock_connect-bounds_example = vsock_connect-bounds refused_once
