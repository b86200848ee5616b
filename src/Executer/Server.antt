-- ===== src/Executer/Server.antt =====
-- samples/command_executer/src/lib.rs: the server, which runs inside the enclave.
use aws_nitro_enclaves_cli.Common.{
  ℕ, suc, Bool, true, false, ◌&&◌, Option, none, some, List, [], ◌∷◌, ◌++◌, ◌==◌, if◌then◌else◌,
}
use aws_nitro_enclaves_cli.Common.Int.{pos}
use aws_nitro_enclaves_cli.Executer.{
  socket_failed, bind_failed, listen_failed, accept_failed, not_utf8, could_not_execute,
  could_not_serialize, Outcome, done, failed, panicked, blocked, Io, pure, raise, or_raise, ◌>>=◌,
  ◌>>◌,
}
use aws_nitro_enclaves_cli.Executer.Utf8.{is_utf8}
use aws_nitro_enclaves_cli.Executer.Socket.{Socket, send_u64, recv_u64}
use aws_nitro_enclaves_cli.Executer.Process.{
  Output, CommandOutput, System, Process, on_socket, create_file, open_file, file_size, recv_text,
  send_text, send_contents, receive_contents,
}

pub data CmdId : Type 0 where
  run_cmd recv_file send_file run_cmd_no_wait : CmdId

-- What `accept` answers.
pub data Accepted : Type 0 where
  connection : Socket → Accepted
  no_connection : ℕ → Accepted

-- The kernel's answers to `socket`, `bind` and `listen`.
pub data Setup : Type 0 where
  listens : List Accepted → Setup
  no_socket no_bind no_listen : ℕ → Setup

abbrev pub cmd_id : CmdId → ℕ
cmd_id run_cmd = 0
cmd_id recv_file = 1
cmd_id send_file = 2
cmd_id run_cmd_no_wait = 3

unfoldable pub from_u64 : ℕ → Option CmdId
from_u64 id =
    if id == 0
    then some run_cmd
    else if id == 1
    then some recv_file
    else if id == 2
    then some send_file
    else if id == 3
    then some run_cmd_no_wait
    else none

-- "Could not execute the command "
could_not_execute_text : List ℕ
could_not_execute_text =
    b'C' ∷ b'o' ∷ b'u' ∷ b'l' ∷ b'd' ∷ b' ' ∷ b'n' ∷ b'o' ∷ b't' ∷ b' ' ∷ b'e' ∷ b'x' ∷ b'e' ∷ b'c'
    ∷ b'u' ∷ b't' ∷ b'e' ∷ b' ' ∷ b't' ∷ b'h' ∷ b'e' ∷ b' ' ∷ b'c' ∷ b'o' ∷ b'm' ∷ b'm' ∷ b'a'
    ∷ b'n' ∷ b'd' ∷ b' ' ∷ []

unfoldable pub new_from : Output → Io Process CommandOutput
new_from output =
    if is_utf8 output.stdout && is_utf8 output.stderr
    then pure record { stdout = output.stdout; stderr = output.stderr; rc = output.code }
    else raise not_utf8

-- An error of a connection is printed, and the loop goes on.
abbrev pub served :
    Outcome (Unit {0}) × Process → Io Process (Unit {0}) → Outcome (Unit {0}) × Process
served (done _, p) next = next p
served (failed e, p) next = next p
served (panicked, p) next = (panicked, p)
served (blocked, p) next = (blocked, p)

module _ (sys : System) where
  -- What the command gives, whether or not the server waits for it.
  unfoldable pub execute : Bool → List ℕ → Io Process CommandOutput
  unfolding could_not_execute_text
  execute true command =
      if sys.spawn command
      then pure record { stdout = []; stderr = []; rc = some (pos 0) }
      else pure
          record { stdout = []; stderr = could_not_execute_text ++ command; rc = some (pos 1) }
  execute false command = do
    output ← or_raise could_not_execute (sys.output command)
    new_from output

  unfoldable pub run_server : Bool → Io Process (Unit {0})
  run_server no_wait = do
    (command, buf) ← recv_text
    command_output ← execute no_wait command
    json_output ← or_raise could_not_serialize (sys.json.to_vec command_output)
    send_text json_output

  unfoldable pub recv_file_server : Io Process (Unit {0})
  recv_file_server = do
    (path, buf) ← recv_text
    contents ← open_file sys path
    filesize ← file_size sys path contents
    on_socket (send_u64 filesize)
    send_contents filesize filesize 0 contents buf

  unfoldable pub send_file_server : Io Process (Unit {0})
  send_file_server = do
    (path, buf) ← recv_text
    create_file sys path
    filesize ← on_socket recv_u64
    receive_contents filesize filesize 0 path buf

  -- The command of one connection.
  unfoldable pub serve : CmdId → Io Process (Unit {0})
  serve run_cmd = run_server false
  serve recv_file = recv_file_server
  serve send_file = send_file_server
  serve run_cmd_no_wait = run_server true

  -- An unknown command and an error are printed; the descriptor of the connection is a number that
  -- nothing closes.
  abbrev pub dispatch : Option CmdId → Io Process (Unit {0})
  dispatch none = pure tt
  dispatch (some cmdid) = serve cmdid

  -- The body of the loop after `accept`.
  unfoldable pub serve_connection : Io Process (Unit {0})
  serve_connection = do id ← on_socket recv_u64; dispatch (from_u64 id)

  unfoldable pub accept_loop : List Accepted → Io Process (Unit {0})
  accept_loop [] p = (blocked, p)
  accept_loop (no_connection e ∷ accepted) p = (failed (accept_failed e), p)
  accept_loop (connection socket ∷ accepted) p =
      served (serve_connection (record p { socket = socket; open_sockets = suc p.open_sockets }))
        (accept_loop accepted)

  unfoldable pub listen : Setup → Io Process (Unit {0})
  listen (listens accepted) = accept_loop accepted
  listen (no_socket e) = raise (socket_failed e)
  listen (no_bind e) = raise (bind_failed e)
  listen (no_listen e) = raise (listen_failed e)
