-- ===== src/Executer/Client.antt =====
-- samples/command_executer/src/lib.rs: the client, which runs on the parent instance.
use aws_nitro_enclaves_cli.Common.{
  ℕ, zero, suc, ◌+◌, ◌-◌, ◌^◌, min, Bool, Option, none, some, List, [], ◌∷◌, ◌++◌, ltb,
  if◌then◌else◌, take,
}
use aws_nitro_enclaves_cli.Common.Int.{ℤ, pos}
use aws_nitro_enclaves_cli.Executer.{
  socket_failed, connect_failed, could_not_deserialize, Outcome, done, failed, blocked, Io, pure,
  or_raise, modify, ◌>>=◌, ◌>>◌,
}
use aws_nitro_enclaves_cli.Executer.Socket.{recv_loop, send_u64, recv_u64}
use aws_nitro_enclaves_cli.Executer.Process.{
  CommandOutput, System, Attempt, connects, no_socket, refuses, Process, on_socket, buf_max_len,
  new_buffer, from_utf8, create_file, open_file, file_size, send_text, send_contents,
  receive_contents,
}
use aws_nitro_enclaves_cli.Executer.Server.{CmdId, cmd_id}

abbrev max_connection_attempts : ℕ
max_connection_attempts = 5

-- The socket of an attempt that is refused is closed when the round ends, after the sleep.
unfoldable pub attempt_connect : ℕ → ℕ → ℕ → List Attempt → Io Process (Unit {0})
attempt_connect zero i last attempts p =
    (failed (connect_failed last), record p { attempts = attempts })
attempt_connect (suc left) i last [] p = (blocked, record p { attempts = [] })
attempt_connect (suc left) i last (connects ∷ attempts) p =
    (done tt, record p { attempts = attempts; open_sockets = suc p.open_sockets })
attempt_connect (suc left) i last (no_socket e ∷ attempts) p =
    (failed (socket_failed e), record p { attempts = attempts })
attempt_connect (suc left) i last (refuses e ∷ attempts) p =
    attempt_connect left (suc i) e attempts (record p { slept = p.slept + 2 ^ i })

unfoldable pub vsock_connect : Io Process (Unit {0})
vsock_connect p = attempt_connect max_connection_attempts 0 0 p.attempts p

-- The socket of the connection is closed when a function returns.
abbrev pub close_socket {ℓ} : {A : Type ℓ} → Outcome A × Process → Outcome A × Process
close_socket (result, p) = (result, record p { open_sockets = p.open_sockets - 1 })

unfoldable pub connected {ℓ} : {A : Type ℓ} → Io Process A → Io Process A
connected talk = do vsock_connect; λ (p : Process). close_socket (talk p)

-- The loop that receives the output: each piece of the buffer must be text by itself. Its fuel is the
-- length, of which each round takes a byte at least.
unfoldable pub receive_output : ℕ → ℕ → List ℕ → List ℕ → Io Process (List ℕ)
receive_output zero to_recv buf json_output = pure json_output
receive_output (suc fuel) to_recv buf json_output =
    let recv_len = min buf_max_len to_recv in
    let rest =
      λ (full text : List ℕ). receive_output fuel (to_recv - recv_len) full (json_output ++ text) in
    let body = (do
      full ← on_socket (recv_loop buf recv_len)
      text ← from_utf8 (take recv_len full)
      rest full text) in
    if ltb 0 to_recv then body else pure json_output

abbrev pub exit_code : Option ℤ → ℤ
exit_code none = pos 0
exit_code (some code) = code

module _ (sys : System) where
  abbrev print_output : CommandOutput → Io Process (Unit {0})
  print_output output = modify (λ (p : Process). record p {
    stdout = p.stdout ++ output.stdout;
    stderr = p.stderr ++ output.stderr;
  })

  unfoldable pub run : Bool → List ℕ → Io Process ℤ
  run no_wait command = connected (do
    on_socket (send_u64 (cmd_id (if no_wait then CmdId.run_cmd_no_wait else CmdId.run_cmd)))
    send_text command
    len ← on_socket recv_u64
    json_output ← receive_output len len new_buffer []
    output ← or_raise could_not_deserialize (sys.json.from_slice json_output)
    print_output output
    pure (exit_code output.rc))

  unfoldable pub recv_file : List ℕ → List ℕ → Io Process (Unit {0})
  recv_file localfile remotefile = do
    create_file sys localfile
    connected (do
      on_socket (send_u64 (cmd_id CmdId.recv_file))
      send_text remotefile
      filesize ← on_socket recv_u64
      receive_contents filesize filesize 0 localfile new_buffer)

  unfoldable pub send_file : List ℕ → List ℕ → Io Process (Unit {0})
  send_file localfile remotefile = do
    contents ← open_file sys localfile
    connected (do
      on_socket (send_u64 (cmd_id CmdId.send_file))
      send_text remotefile
      filesize ← file_size sys localfile contents
      on_socket (send_u64 filesize)
      send_contents filesize filesize 0 contents new_buffer)
