-- ===== src/Executer/Ran.antt =====
-- A command that the client asks for runs on the server, and its output comes back.
use aws_nitro_enclaves_cli.Common.{
  ℕ, suc, ◌+◌, ◌-◌, ◌≤◌, ◌<◌, ◌≡◌, refl, sym, ap, ◌∙◌, Bool, true, false, some, List, [], ◌∷◌, ◌++◌,
  arith, length, ◌^◌, inl, inr,
}
use mathlib.Core.List.{append_assoc, append-nil}
use aws_nitro_enclaves_cli.Executer.{Outcome, done}
use aws_nitro_enclaves_cli.Executer.Socket.{Answer}
use aws_nitro_enclaves_cli.Executer.Buffer.{Serves}
use aws_nitro_enclaves_cli.Executer.FileSent.{sent}
use aws_nitro_enclaves_cli.Executer.Utf8.{is_utf8}
use aws_nitro_enclaves_cli.Executer.Process.{new_buffer, Process, buf_max_len}
use aws_nitro_enclaves_cli.Executer.Messages.{
  u64_bytes, message, reading, length-new_buffer, send_u64-Serves, send_text-Serves,
  recv_u64-Serves, recv_text-Serves,
}
use aws_nitro_enclaves_cli.Executer.Process.{System, Attempt, connects}
use aws_nitro_enclaves_cli.Executer.Server.{CmdId, cmd_id, serve, serve_connection}
use aws_nitro_enclaves_cli.Executer.Served.{request}
use aws_nitro_enclaves_cli.Executer.Served.{serve_connection-request}
use aws_nitro_enclaves_cli.Executer.Copied.{opened, connected-connects, Connects}
use aws_nitro_enclaves_cli.Executer.Client.{exit_code, run}
use aws_nitro_enclaves_cli.Executer.Server.{execute, run_server, new_from}
use aws_nitro_enclaves_cli.Executer.Process.{CommandOutput}
use aws_nitro_enclaves_cli.Executer.Commands.{is_text_in_pieces, receive_output-Serves}
use aws_nitro_enclaves_cli.Common.{Option-cases, if◌then◌else◌}
use aws_nitro_enclaves_cli.Executer.Process.{Output}

abbrev id_of : Bool → CmdId
id_of no_wait = if no_wait then CmdId.run_cmd_no_wait else CmdId.run_cmd

module _ (sys : System) where
  new_from-done :
      (o : Output) (output : CommandOutput) (p q : Process)
      → (new_from o p).0 ≡ done output
      → new_from o q ≡ (done output, q)
  unfolding new_from
  new_from-done o output p q h = ground arith

  -- What a command gives does not depend on the process, and does not change it.
  execute-done :
      (no_wait : Bool) (command : List ℕ) (output : CommandOutput) (p q : Process)
      → (execute sys no_wait command p).0 ≡ done output
      → execute sys no_wait command q ≡ (done output, q)
  unfolding execute
  execute-done true command output p q h = ground arith
  execute-done false command output p q h = elim (Option-cases (sys.output command)) [
    | inl none_is ↦ absurd (ground arith)
    | inr (o, e) ↦ rw (e, execute) (new_from-done o output p q (rw e at h))
  ]

  run_server-Serves :
      (count : ℕ) (no_wait : Bool) (command json : List ℕ) (output : CommandOutput) (s : Process)
      → length command ≤ buf_max_len
      → is_utf8 command ≡ true
      → s.socket.incoming ≡ message command
      → (execute sys no_wait command s).0 ≡ done output
      → sys.json.to_vec output ≡ some json
      → Serves (count + length json + 9 + length command + 9) s.socket.answers
      → (left : List Answer) × Serves count left
        × (run_server sys no_wait s ≡ (done tt, sent (message json) left (reading [] left s)))
  unfolding run_server
  run_server-Serves count no_wait command json output s fits valid arrives gives encoded h =
      let (left, serves, e) =
        recv_text-Serves (count + length json + 9) command [] s fits valid
          (arrives ∙ sym (append-nil (message command))) h in
      let (left1, serves1, e1) = send_text-Serves count json (reading [] left s) serves in
      (
        left1,
        serves1,
        rw (e, execute-done no_wait command output s (reading [] left s) gives, encoded, e1) refl,
      )

  serve-id_of :
      (no_wait : Bool) (p : Process) → serve sys (id_of no_wait) p ≡ run_server sys no_wait p
  unfolding serve
  serve-id_of true p = refl
  serve-id_of false p = refl

  serve_run-Serves :
      (count : ℕ) (no_wait : Bool) (command json : List ℕ) (output : CommandOutput) (s : Process)
      → length command ≤ buf_max_len
      → is_utf8 command ≡ true
      → s.socket.incoming ≡ request (id_of no_wait) command
      → (execute sys no_wait command s).0 ≡ done output
      → sys.json.to_vec output ≡ some json
      → Serves (count + length json + 9 + length command + 9 + 9) s.socket.answers
      → (left : List Answer) × Serves count left
        × (serve_connection sys s ≡ (done tt, sent (message json) left (reading [] left s)))
  serve_run-Serves count no_wait command json output s fits valid arrives gives encoded h =
      let (left, serves, e) =
        serve_connection-request sys (count + length json + 9 + length command + 9) (id_of no_wait)
          (message command) s arrives h in
      let p = reading (message command) left s in
      let (left1, serves1, e1) =
        run_server-Serves count no_wait command json output p fits valid refl
          (ap (λ (r : Outcome CommandOutput × Process). r.0)
            (execute-done no_wait command output s p gives))
          encoded serves in
      (left1, serves1, e ∙ serve-id_of no_wait p ∙ e1)

-- A process that has printed an output.
abbrev printed : CommandOutput → Process → Process
printed output p = record p {
  stdout = p.stdout ++ output.stdout;
  stderr = p.stderr ++ output.stderr;
}

module _ (sys : System) where
  run-Serves :
      (count : ℕ) (no_wait : Bool) (command json : List ℕ) (output : CommandOutput)
      (more : List Attempt) (c : Process)
      → c.attempts ≡ connects ∷ more
      → length json < 2 ^ 64
      → c.socket.incoming ≡ message json
      → is_text_in_pieces (length json) json ≡ true
      → sys.json.from_slice json ≡ some output
      → Serves (count + length json + 9 + length command + 9 + 9) c.socket.answers
      → (left : List Answer) × (run sys no_wait command c ≡ (
        done (exit_code output.rc),
        printed output (
            reading [] left
              (sent (request (id_of no_wait) command) left (record c { attempts = more }))),
      ))
  unfolding run
  run-Serves count no_wait command json output more c connects_to small arrives texts decoded h =
      let n = length json in
      let p = opened more c in
      let id = cmd_id (id_of no_wait) in
      let (left, serves, e) = send_u64-Serves (count + n + 9 + length command + 9) id p h in
      let (left1, serves1, e1) =
        send_text-Serves (count + n + 9) command (sent (u64_bytes id) left p) serves in
      let p2 = sent (message command) left1 (sent (u64_bytes id) left p) in
      let (left2, serves2, e2) = recv_u64-Serves (count + n) n json p2 small arrives serves1 in
      let (left3, serves3, e3) =
        receive_output-Serves count n json [] new_buffer [] (reading json left2 p2) (omega arith)
          length-new_buffer (sym (append-nil json)) texts serves2 in
      let one : suc c.open_sockets - 1 ≡ c.open_sockets = omega arith in
      (
        left3,
        rw (connected-connects _ more c connects_to, e, e1, e2, e3, decoded, append_assoc, one)
            refl,
      )

module _ (client server : System) where
  -- Let the first attempt of the client to connect succeed, the command be a text of at most 8192 bytes, the
  -- server have an output for it, waited for or not, and encode it in less than 2 ^ 64 bytes, which the
  -- client decodes to that output and of which each piece of 8192 bytes is a text, and the kernel answer
  -- both sides without an error and with enough calls that move a byte. When neither side has sent
  -- anything before, the server is sent the request, and the client what the server answers, then the server
  -- is done, and the client returns the exit code of the output, has sent that request, has printed both
  -- texts of the output, and has as many sockets open as before.
  pub run-serve_connection :
      (no_wait : Bool) (command json : List ℕ) (output : CommandOutput) (c s : Process)
      → Connects c
      → length command ≤ buf_max_len
      → is_utf8 command ≡ true
      → (execute server no_wait command s).0 ≡ done output
      → server.json.to_vec output ≡ some json
      → client.json.from_slice json ≡ some output
      → is_text_in_pieces (length json) json ≡ true
      → length json < 2 ^ 64
      → Serves (length json + length command + 27) s.socket.answers
      → Serves (length json + length command + 27) c.socket.answers
      → c.socket.outgoing ≡ []
      → s.socket.outgoing ≡ []
      → s.socket.incoming ≡ request (id_of no_wait) command
      → let served = serve_connection server s in
        let asked = run client no_wait command c in
        c.socket.incoming ≡ served.1.socket.outgoing
        → (served.0 ≡ done tt)
          × (asked.0 ≡ done (exit_code output.rc))
          × (asked.1.socket.outgoing ≡ s.socket.incoming)
          × (asked.1.stdout ≡ c.stdout ++ output.stdout)
          × (asked.1.stderr ≡ c.stderr ++ output.stderr)
          × (asked.1.open_sockets ≡ c.open_sockets)
  run-serve_connection no_wait command json output c s (more, connects_to) fits valid gives encoded
        decoded texts small s_serves c_serves c_fresh s_fresh asks answers =
      let (left, _, e) =
        serve_run-Serves server 0 no_wait command json output s fits valid asks gives encoded
          (s_serves.0, omega (arith, s_serves.1)) in
      let (left1, e1) =
        run-Serves client 0 no_wait command json output more c connects_to small
          (answers ∙ rw (e, s_fresh) refl) texts decoded (c_serves.0, omega (arith, c_serves.1)) in
      rw (e, e1, c_fresh) (refl, refl, sym asks, refl, refl, refl)
