-- ===== src/Executer/Copied.antt =====
-- The commands that copy a file, on the side of the client and between both sides.
use aws_nitro_enclaves_cli.Common.{
  ℕ, suc, ◌+◌, ◌-◌, ◌≤◌, ◌<◌, ◌≡◌, refl, sym, ◌∙◌, true, some, List, [], ◌∷◌, ◌++◌, arith, length,
  ◌^◌,
}
use mathlib.Core.List.{append_assoc, append-nil}
use aws_nitro_enclaves_cli.Executer.{done, Io}
use aws_nitro_enclaves_cli.Executer.Socket.{Answer}
use aws_nitro_enclaves_cli.Executer.Buffer.{Serves}
use aws_nitro_enclaves_cli.Executer.FileSent.{sent}
use aws_nitro_enclaves_cli.Executer.Utf8.{is_utf8}
use aws_nitro_enclaves_cli.Executer.Process.{new_buffer, Process, lookup, buf_max_len}
use aws_nitro_enclaves_cli.Executer.Messages.{
  u64_bytes, message, length-new_buffer, send_u64-Serves, send_text-Serves,
}
use aws_nitro_enclaves_cli.Executer.FileSent.{send_contents-Serves}
use aws_nitro_enclaves_cli.Executer.FileReceived.{lookup-insert}
use aws_nitro_enclaves_cli.Executer.Process.{System, Attempt, connects}
use aws_nitro_enclaves_cli.Executer.Server.{CmdId, cmd_id, serve_connection}
use aws_nitro_enclaves_cli.Executer.Client.{
  recv_file, send_file, connected, vsock_connect, attempt_connect, close_socket,
}
use aws_nitro_enclaves_cli.Executer.Stored.{with_empty, stored, receive_file, receive_file-Serves}
use aws_nitro_enclaves_cli.Executer.Served.{
  request, create_file-may_create, open_file-lookup, file_size-has_metadata, serve_recv_file-Serves,
  serve_send_file-Serves,
}

-- A process with the connection that `connect` has made.
abbrev pub opened : List Attempt → Process → Process
opened more p = record p { attempts = more; open_sockets = suc p.open_sockets }

pub connected-connects :
    {A : Type 0} (talk : Io Process A) (more : List Attempt) (p : Process)
    → p.attempts ≡ connects ∷ more
    → connected talk p ≡ close_socket (talk (opened more p))
unfolding connected vsock_connect attempt_connect
connected-connects talk more p e = rw e refl

four_pieces : (o a b c d : List ℕ) → o ++ a ++ b ++ c ++ d ≡ o ++ ((a ++ b) ++ (c ++ d))
four_pieces o a b c d = simp append_assoc

module _ (sys : System) where
  -- What the client of a `recv_file` that is served is afterwards, and what it has sent.
  recv_file-Serves :
      (count : ℕ) (localfile remotefile contents : List ℕ) (more : List Attempt) (c : Process)
      → c.attempts ≡ connects ∷ more
      → sys.may_create localfile ≡ true
      → length contents < 2 ^ 64
      → length contents ≤ c.room
      → c.socket.incoming ≡ message contents
      → Serves (count + length contents + 9 + length remotefile + 9 + 9) c.socket.answers
      → (left : List Answer) × (recv_file sys localfile remotefile c ≡ (
        done tt,
        stored localfile contents [] left
            (sent (request CmdId.recv_file remotefile) left (record c { attempts = more })),
      ))
  unfolding recv_file receive_file
  recv_file-Serves count localfile remotefile contents more c connects_to allowed small room arrives
        h =
      let n = length contents in
      let p = opened more c in
      let id = u64_bytes (cmd_id CmdId.recv_file) in
      let (left, serves, e) =
        send_u64-Serves (count + n + 9 + length remotefile + 9) (cmd_id CmdId.recv_file)
          (with_empty localfile p) h in
      let (left1, serves1, e1) =
        send_text-Serves (count + n + 9) remotefile (sent id left (with_empty localfile p))
          serves in
      let p2 = sent (message remotefile) left1 (sent id left p) in
      let (left2, serves2, e2) =
        receive_file-Serves count localfile contents [] new_buffer p2 small length-new_buffer room
          (arrives ∙ sym (append-nil (message contents))) serves1 in
      let one : suc c.open_sockets - 1 ≡ c.open_sockets = omega arith in
      (
        left2,
        rw
            (
              create_file-may_create sys localfile c allowed,
              connected-connects _ more (with_empty localfile c) connects_to,
              e,
              e1,
              e2,
              append_assoc,
              one,
            )
            refl,
      )

  -- What the client of a `send_file` that is served is afterwards, and what it has sent.
  send_file-Serves :
      (count : ℕ) (localfile remotefile contents : List ℕ) (more : List Attempt) (c : Process)
      → c.attempts ≡ connects ∷ more
      → lookup localfile c.files ≡ some contents
      → sys.has_metadata localfile ≡ true
      → Serves (count + length contents + 9 + length remotefile + 9 + 9) c.socket.answers
      → (left : List Answer) × (send_file sys localfile remotefile c ≡ (
        done tt,
        sent
            (request CmdId.send_file remotefile ++ message contents)
            left
            (record c { attempts = more }),
      ))
  unfolding send_file
  send_file-Serves count localfile remotefile contents more c connects_to found stat h =
      let n = length contents in
      let p = opened more c in
      let id = u64_bytes (cmd_id CmdId.send_file) in
      let (left, serves, e) =
        send_u64-Serves (count + n + 9 + length remotefile + 9) (cmd_id CmdId.send_file) p h in
      let (left1, serves1, e1) =
        send_text-Serves (count + n + 9) remotefile (sent id left p) serves in
      let p2 = sent (message remotefile) left1 (sent id left p) in
      let (left2, serves2, e2) = send_u64-Serves (count + n) n p2 serves1 in
      let (left3, serves3, e3) =
        send_contents-Serves count n 0 n contents new_buffer (sent (u64_bytes n) left2 p2)
          (omega arith) length-new_buffer refl serves2 in
      let z : 0 + n ≡ n = omega arith in
      let one : suc c.open_sockets - 1 ≡ c.open_sockets = omega arith in
      (
        left3,
        rw
            (
              open_file-lookup sys localfile contents c found,
              connected-connects _ more c connects_to,
              e,
              e1,
              file_size-has_metadata sys localfile contents p2 stat,
              e2,
              rw z at e3,
              four_pieces c.socket.outgoing id (message remotefile) (u64_bytes n) contents,
              one,
            )
            refl,
      )

-- What a client is to reach a server on its first attempt.
abbrev pub Connects : Process → Type 0
Connects c = (more : List Attempt) × (c.attempts ≡ connects ∷ more)

module _ (client server : System) where
  -- Let the first attempt of the client to connect succeed, the client be allowed to create its file and
  -- have room for the contents, which are below 2 ^ 64 bytes, the server have a file of that path and those
  -- contents, with metadata, the path be a text of at most 8192 bytes, and the kernel answer both sides
  -- without an error and with enough calls that move a byte. When neither side has sent anything before,
  -- the server is sent the request of `recv_file`, and the client what the server answers, then both
  -- functions are done, the client has sent that request, its file has the contents of the server's file,
  -- and it has as many sockets open as before.
  pub recv_file-serve_connection :
      (localfile remotefile contents : List ℕ) (c s : Process)
      → Connects c
      → client.may_create localfile ≡ true
      → length contents ≤ c.room
      → length contents < 2 ^ 64
      → length remotefile ≤ buf_max_len
      → is_utf8 remotefile ≡ true
      → lookup remotefile s.files ≡ some contents
      → server.has_metadata remotefile ≡ true
      → Serves (length contents + length remotefile + 27) s.socket.answers
      → Serves (length contents + length remotefile + 27) c.socket.answers
      → c.socket.outgoing ≡ []
      → s.socket.outgoing ≡ []
      → s.socket.incoming ≡ request CmdId.recv_file remotefile
      → let served = serve_connection server s in
        let asked = recv_file client localfile remotefile c in
        c.socket.incoming ≡ served.1.socket.outgoing
        → (served.0 ≡ done tt)
          × (asked.0 ≡ done tt)
          × (lookup localfile asked.1.files ≡ some contents)
          × (asked.1.socket.outgoing ≡ s.socket.incoming)
          × (asked.1.open_sockets ≡ c.open_sockets)
  recv_file-serve_connection localfile remotefile contents c s (more, connects_to) allowed room
        small fits valid found stat s_serves c_serves c_fresh s_fresh asks answers =
      let (left, _, e) =
        serve_recv_file-Serves server 0 remotefile contents s fits valid asks found stat
          (s_serves.0, omega (arith, s_serves.1)) in
      let arrives = answers ∙ rw (e, s_fresh) refl in
      let (left1, e1) =
        recv_file-Serves client 0 localfile remotefile contents more c connects_to allowed small
          room arrives (c_serves.0, omega (arith, c_serves.1)) in
      rw (e, e1, c_fresh) (refl, refl, lookup-insert localfile contents c.files, sym asks, refl)

  -- Let the first attempt of the client to connect succeed, the client have a file of these contents, with
  -- metadata and below 2 ^ 64 bytes, the server be allowed to create its file and have room for the contents,
  -- the path be a text of at most 8192 bytes, and the kernel answer both sides without an error and with
  -- enough calls that move a byte. When the client has sent nothing before and the server is sent what the
  -- client sends, then both functions are done, the server's file has the contents of the client's file,
  -- the server has nothing left to read, and the client has as many sockets open as before.
  pub serve_connection-send_file :
      (localfile remotefile contents : List ℕ) (c s : Process)
      → Connects c
      → lookup localfile c.files ≡ some contents
      → client.has_metadata localfile ≡ true
      → length contents < 2 ^ 64
      → length remotefile ≤ buf_max_len
      → is_utf8 remotefile ≡ true
      → server.may_create remotefile ≡ true
      → length contents ≤ s.room
      → Serves (length contents + length remotefile + 27) s.socket.answers
      → Serves (length contents + length remotefile + 27) c.socket.answers
      → c.socket.outgoing ≡ []
      → let asked = send_file client localfile remotefile c in
        s.socket.incoming ≡ asked.1.socket.outgoing
        → let served = serve_connection server s in
          (asked.0 ≡ done tt)
          × (served.0 ≡ done tt)
          × (lookup remotefile served.1.files ≡ some contents)
          × (served.1.socket.incoming ≡ [])
          × (asked.1.open_sockets ≡ c.open_sockets)
  serve_connection-send_file localfile remotefile contents c s (more, connects_to) found stat small
        fits valid allowed room s_serves c_serves c_fresh arrives =
      let (left, e) =
        send_file-Serves client 0 localfile remotefile contents more c connects_to found stat
          (c_serves.0, omega (arith, c_serves.1)) in
      let asks = arrives ∙ rw (e, c_fresh) refl in
      let (left1, _, e1) =
        serve_send_file-Serves server 0 remotefile contents s fits valid allowed small room asks
          (s_serves.0, omega (arith, s_serves.1)) in
      rw (e, e1) (refl, refl, lookup-insert remotefile contents s.files, refl, refl)
