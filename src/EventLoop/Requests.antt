-- ===== src/EventLoop/Requests.antt =====
-- What a request does to a process that refuses it or cannot read it.
use aws_nitro_enclaves_cli.Common.{
  ℕ, ◌≡◌, refl, ap, ◌≢◌, ◌∙◌, true, Option, none, some, List, ◌∷◌, arith,
}
use aws_nitro_enclaves_cli.Common.Int.{ℤ}
use aws_nitro_enclaves_cli.Failure.{NitroCliErrorEnum, NitroCliResult, ok, err, exit}
use aws_nitro_enclaves_cli.Command.{EnclaveProcessCommandType, not_permitted}
use aws_nitro_enclaves_cli.Wire.{receive_from_stream}
use aws_nitro_enclaves_cli.Connection.{UnixCredentials, admitted}
use aws_nitro_enclaves_cli.Connection.Policy.{can_execute_command_iff}
use aws_nitro_enclaves_cli.Connection.Stream.{
  Connection, EpollFlags, Stream, read_command, get_enclave_event_flags, new_connection,
}
use aws_nitro_enclaves_cli.Connection.Replies.{Writes}
use aws_nitro_enclaves_cli.Host.{Host}
use aws_nitro_enclaves_cli.Listener.{Wait, event, input_of, get_next_connection}
use aws_nitro_enclaves_cli.EventLoop.{Process, set_system, on_connection}
use aws_nitro_enclaves_cli.EventLoop.Terminate.{close_input, notify_error_with_conn}
use aws_nitro_enclaves_cli.EventLoop.Handle.{handle_command}
use aws_nitro_enclaves_cli.EventLoop.Loop.{
  again, returned, execute, clean_up, reply_status, round, try_handle_enclave_event, descriptor_of,
  after_read, drop_ending, ending_after,
}

-- Neither root nor the user of the process.
abbrev pub IsStranger : ℕ → Option UnixCredentials → Type 0
IsStranger uid none = Unit
IsStranger uid (some creds) = (creds.uid ≢ 0) × (creds.uid ≢ uid)

admitted-IsStranger :
    (uid : ℕ) (cmd : EnclaveProcessCommandType) (creds : Option UnixCredentials)
    → Writes cmd
    → IsStranger uid creds
    → admitted uid cmd creds ≡ not_permitted
unfolding admitted
admitted-IsStranger uid cmd none w h = refl
admitted-IsStranger uid cmd (some creds) w h = ground (arith, can_execute_command_iff uid cmd creds)

module _ (H : Host)
    (kept : (c : Connection) (k : H.State) → H.connection (H.set_connection c k) ≡ c) where
  execute-not_permitted :
      (p : Process H)
      → close_input (H.connection p.enclave_manager.world.sys) ≡ ok tt
      → execute H not_permitted p ≡ (again, p)
  unfolding execute handle_command clean_up reply_status
  execute-not_permitted p closes = rw closes refl

  -- The bytes that are read are all that changes of a connection.
  close_input-read_command :
      (flags : EpollFlags) (s : Stream)
      → s.closes ≡ true
      → close_input (read_command H.commands H.uid (new_connection flags (some s))).1 ≡ ok tt
  unfolding read_command new_connection
  close_input-read_command flags s closes = ground arith

  -- The round for a stream that is not the enclave's, up to the command.
  round-read :
      (p : Process H) (fd : ℤ) (flags : EpollFlags) (s : Stream) (answers : List Wait)
      → input_of (descriptor_of H p.enclave_manager) fd s ≡ some s
      → (H.epoll_del fd p.enclave_manager.world.sys).0 ≡ true
      → (k : H.State) × (H.connection k
          ≡ (read_command H.commands H.uid (new_connection flags (some s))).1)
        × (round H (event fd flags s ∷ answers) p
            ≡ after_read H (
              (read_command H.commands H.uid (new_connection flags (some s))).0,
              set_system H k p,
            ))
  unfolding round get_next_connection try_handle_enclave_event get_enclave_event_flags
      new_connection
  round-read p fd flags s answers other removed =
      let k = (H.epoll_del fd p.enclave_manager.world.sys).1 in
      let c = new_connection flags (some s) in
      let e = kept c k in
      (
        H.set_connection (read_command H.commands H.uid c).1 (H.set_connection c k),
        kept (read_command H.commands H.uid c).1 (H.set_connection c k),
        rw (removed, other, e) refl,
      )

  -- What `read_command` gives for the command that a stranger has sent.
  read_command-IsStranger :
      (flags : EpollFlags) (s : Stream) (cmd : EnclaveProcessCommandType)
      → (receive_from_stream H.commands s.incoming).0 ≡ ok cmd
      → Writes cmd
      → IsStranger H.uid s.creds
      → (read_command H.commands H.uid (new_connection flags (some s))).0 ≡ ok not_permitted
  unfolding read_command new_connection
  read_command-IsStranger flags s cmd received w h =
      ground (arith, admitted-IsStranger H.uid cmd s.creds w h)

  read_command-err :
      (flags : EpollFlags) (s : Stream) (e : NitroCliErrorEnum)
      → (receive_from_stream H.commands s.incoming).0 ≡ err e
      → (read_command H.commands H.uid (new_connection flags (some s))).0 ≡ err e
  unfolding read_command new_connection
  read_command-err flags s e received = ground arith

  -- A command that changes an enclave or its process and comes from neither root nor the user of the
  -- process changes nothing but the system's own state, and the loop goes on. The stream is not the
  -- one of the enclave, can be taken off `epoll` and can be shut down, and the system gives back the
  -- connection that was set for the request.
  pub round-IsStranger :
      (p : Process H) (fd : ℤ) (flags : EpollFlags) (s : Stream) (answers : List Wait)
      (cmd : EnclaveProcessCommandType)
      → input_of (descriptor_of H p.enclave_manager) fd s ≡ some s
      → (H.epoll_del fd p.enclave_manager.world.sys).0 ≡ true
      → (receive_from_stream H.commands s.incoming).0 ≡ ok cmd
      → Writes cmd
      → IsStranger H.uid s.creds
      → s.closes ≡ true
      → ((round H (event fd flags s ∷ answers) p).0 ≡ again)
        × ((k : H.State) × ((round H (event fd flags s ∷ answers) p).1 ≡ set_system H k p))
  round-IsStranger p fd flags s answers cmd other removed received w h closes =
      let (k, there, e) = round-read p fd flags s answers other removed in
      let shut : close_input (H.connection k) ≡ ok tt =
        ap close_input there ∙ close_input-read_command flags s closes in
      let refused = read_command-IsStranger flags s cmd received w h in
      let whole : round H (event fd flags s ∷ answers) p ≡ (again, set_system H k p) =
        e ∙ rw refused (execute-not_permitted (set_system H k p) shut) in
      (ap (λ r. r.0) whole, (k, ap (λ r. r.1) whole))

  ending_after-returned :
      (r c : NitroCliResult (Unit {0}))
      → (result : NitroCliResult (Unit {0})) × (ending_after (returned r) c ≡ returned result)
  ending_after-returned r (ok _) = (r, refl)
  ending_after-returned r (err e) = (exit e, refl)
  ending_after-returned r (exit e) = (exit e, refl)

  drop_ending-returned :
      (r : NitroCliResult (Unit {0})) (p : Process H)
      → (result : NitroCliResult (Unit {0})) × (drop_ending H (returned r) p ≡ returned result)
  drop_ending-returned (exit e) p = (exit e, refl)
  drop_ending-returned (ok _) p =
      ending_after-returned (ok tt) (close_input (H.connection p.enclave_manager.world.sys))
  drop_ending-returned (err e) p =
      ending_after-returned (err e) (close_input (H.connection p.enclave_manager.world.sys))

  -- Bytes that are no command end the loop, whoever sends them: the credentials of the peer count for
  -- nothing. The stream is not the one of the enclave and can be taken off `epoll`, and the system
  -- gives back the connection that was set for the request.
  pub round-unread :
      (p : Process H) (fd : ℤ) (flags : EpollFlags) (s : Stream) (answers : List Wait)
      (e : NitroCliErrorEnum)
      → input_of (descriptor_of H p.enclave_manager) fd s ≡ some s
      → (H.epoll_del fd p.enclave_manager.world.sys).0 ≡ true
      → (receive_from_stream H.commands s.incoming).0 ≡ err e
      → (result : NitroCliResult (Unit {0})) × ((round H (event fd flags s ∷ answers) p).0
          ≡ returned result)
  round-unread p fd flags s answers e other removed received =
      let (k, there, read) = round-read p fd flags s answers other removed in
      let unread = read_command-err flags s e received in
      let told = on_connection H (notify_error_with_conn H e) (set_system H k p) in
      let (result, over) = drop_ending-returned told.0 told.1 in
      (result, ap (λ r. r.0) read ∙ rw unread over)
