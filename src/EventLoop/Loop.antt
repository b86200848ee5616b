-- ===== src/EventLoop/Loop.antt =====
-- src/enclave_proc/mod.rs: `process_event_loop`, one round after the other.
use aws_nitro_enclaves_cli.Common.{
  ℕ, Bool, true, false, Option, none, some, List, [], ◌∷◌, if◌then◌else◌,
}
use aws_nitro_enclaves_cli.Common.Int.{ℤ}
use aws_nitro_enclaves_cli.Failure.{
  NitroCliErrorEnum, NitroCliResult, ok, err, exit, enclave_process_send_reply_failure, epoll_error,
  signal_masking_error, socket_pair_creation_failure,
}
use aws_nitro_enclaves_cli.Exec.{Exec, pure, ◌>>◌}
use aws_nitro_enclaves_cli.Command.{
  EnclaveProcessCommandType, run, terminate, describe, get_enclave_name, get_id_by_name,
}
use aws_nitro_enclaves_cli.Connection.Stream.{
  Connection, EpollFlags, Stream, get_enclave_event_flags, read_command, write_status,
}
use aws_nitro_enclaves_cli.Enclave.Manager.{Manager, get_enclave_descriptor}
use aws_nitro_enclaves_cli.Host.{Host}
use aws_nitro_enclaves_cli.Listener.{
  Wait, get_next_connection, add_to_epoll, handle_new_connection, stop, no_listener,
}
use aws_nitro_enclaves_cli.EventLoop.{
  Process, default_manager, on_state, on_connection, on_listener,
}
use aws_nitro_enclaves_cli.EventLoop.Terminate.{
  close_input, notify_error_with_conn, join_terminate_thread, run_detached_thread,
}
use aws_nitro_enclaves_cli.EventLoop.Handle.{Handled, handle_command, einval}

pub data HandledEnclaveEvent : Type 0 where
  hang_up unexpected no_event : HandledEnclaveEvent

abbrev event_of : Option EpollFlags → HandledEnclaveEvent
event_of none = no_event
event_of (some flags) = if flags.hup then hang_up else unexpected

unfoldable pub try_handle_enclave_event : Connection → NitroCliResult HandledEnclaveEvent
unfolding get_enclave_event_flags
try_handle_enclave_event connection = elim (get_enclave_event_flags connection) [
  | ok flags ↦ ok (event_of flags)
  | err e ↦ err e
  | exit e ↦ exit e
]

-- The commands whose sender waits for a status.
abbrev pub is_replied : EnclaveProcessCommandType → Bool
is_replied run = true
is_replied terminate = true
is_replied describe = true
is_replied get_enclave_name = true
is_replied get_id_by_name = true
is_replied _ = false

-- What a round comes to: another round, the wait for an event that does not come, the end of the
-- loop with its value, or a panic.
pub data Ending : Type 0 where
  again waiting panicked : Ending
  returned : NitroCliResult (Unit {0}) → Ending

-- A round of the main thread with the answers of `epoll_wait`, or a thread that runs to its end.
pub data Turn : Type 0 where
  main : List Wait → Turn
  terminate_thread : Turn
  detached_thread : ℕ → Turn

-- The shutdown of a stream that fails ends the process.
abbrev pub ending_after : Ending → NitroCliResult (Unit {0}) → Ending
ending_after ending (ok _) = ending
ending_after ending (err e) = returned (exit e)
ending_after ending (exit e) = returned (exit e)

module _ (H : Host) where
  -- The clean-up before the status is sent.
  unfoldable pub clean_up : Bool → Exec (Process H) (Unit {0})
  clean_up done = if done then (do on_listener H (stop H); join_terminate_thread H) else pure tt

  abbrev failed_reply :
      NitroCliResult (Unit {0}) × Process H → NitroCliResult (Unit {0}) × Process H
  failed_reply (ok _, p) = (ok tt, p)
  failed_reply (err e, p) = (err enclave_process_send_reply_failure, p)
  failed_reply (exit e, p) = (exit e, p)

  unfoldable pub reply_status : EnclaveProcessCommandType → ℤ → Exec (Process H) (Unit {0})
  reply_status cmd status_code p =
      if is_replied cmd
      then failed_reply (on_connection H (write_status H.replies status_code) p)
      else (ok tt, p)

  -- The status of an error, which goes to the connection too.
  abbrev pub status_of : NitroCliResult Handled × Process H → NitroCliResult Handled × Process H
  status_of (ok handled, p) = (ok handled, p)
  status_of (err e, p) =
      (do on_connection H (notify_error_with_conn H e); pure (some (einval, true))) p
  status_of (exit e, p) = (exit e, p)

  abbrev pub ending_of : Bool → NitroCliResult (Unit {0}) × Process H → Ending × Process H
  ending_of done (ok _, p) = (if done then returned (ok tt) else again, p)
  ending_of done (err e, p) = (returned (err e), p)
  ending_of done (exit e, p) = (returned (exit e), p)

  abbrev pub finish :
      EnclaveProcessCommandType → NitroCliResult Handled × Process H → Ending × Process H
  finish cmd (ok none, p) = (panicked, p)
  finish cmd (ok (some (status_code, done)), p) =
      ending_of done ((do clean_up done; reply_status cmd status_code) p)
  finish cmd (err e, p) = (returned (err e), p)
  finish cmd (exit e, p) = (returned (exit e), p)

  -- The drop of the connection, which shuts its stream down, if the process still runs.
  abbrev pub drop_ending : Ending → Process H → Ending
  drop_ending (returned (exit e)) p = returned (exit e)
  drop_ending ending p =
      ending_after ending (close_input (H.connection p.enclave_manager.world.sys))

  abbrev drop_connection : Ending × Process H → Ending × Process H
  drop_connection r = (drop_ending r.0 r.1, r.1)

  -- The thread of a termination that was started has a clone of the connection.
  abbrev is_kept : EnclaveProcessCommandType → NitroCliResult Handled → Bool
  is_kept terminate (ok handled) = true
  is_kept _ _ = false

  -- A command, its clean-up, its status, and the drop of the connection.
  unfoldable pub execute : EnclaveProcessCommandType → Process H → Ending × Process H
  unfolding clean_up reply_status
  execute cmd p =
      let handled = handle_command H cmd p in
      let ended = finish cmd (status_of handled) in
      if is_kept cmd handled.0 then ended else drop_connection ended

  -- A command that cannot be read ends the loop, with no error.
  abbrev pub after_read : NitroCliResult EnclaveProcessCommandType × Process H → Ending × Process H
  after_read (ok cmd, p) = execute cmd p
  after_read (err e, p) =
      let (result, p') = on_connection H (notify_error_with_conn H e) p in
      drop_connection (returned result, p')
  after_read (exit e, p) = (returned (exit e), p)

  abbrev pub after_event : NitroCliResult HandledEnclaveEvent → Process H → Ending × Process H
  after_event (ok hang_up) p = (returned (ok tt), p)
  after_event (ok unexpected) p = (again, p)
  after_event (ok no_event) p = after_read (on_connection H (read_command H.commands H.uid) p)
  after_event (err e) p = drop_connection (returned (err e), p)
  after_event (exit e) p = (returned (exit e), p)

  -- The connection becomes the one of the request.
  abbrev pub after_wait : NitroCliResult (Option Connection) × Process H → Ending × Process H
  after_wait (ok none, p) = (waiting, p)
  after_wait (ok (some connection), p) =
      after_event (try_handle_enclave_event connection)
        (on_state H (λ k. (ok tt, H.set_connection connection k)) p).1
  after_wait (err e, p) = (returned (err e), p)
  after_wait (exit e, p) = (returned (exit e), p)

  -- `get_enclave_descriptor().ok()`
  abbrev pub descriptor_of : Manager H.driver → Option ℤ
  descriptor_of m = elim (get_enclave_descriptor H.driver m).0 [
    | ok fd ↦ some fd
    | err e ↦ none
    | exit e ↦ none
  ]

  unfoldable pub round : List Wait → Process H → Ending × Process H
  unfolding execute try_handle_enclave_event
  round answers p =
      after_wait (on_state H (get_next_connection H (descriptor_of p.enclave_manager) answers) p)

  -- A thread that ends the process ends the loop with it.
  abbrev after_thread : NitroCliResult (Unit {0}) × Process H → Ending × Process H
  after_thread (ok _, p) = (again, p)
  after_thread (err e, p) = (again, p)
  after_thread (exit e, p) = (returned (exit e), p)

  unfoldable pub take_turn : Turn → Process H → Ending × Process H
  unfolding round
  take_turn (main answers) p = round answers p
  take_turn terminate_thread p = after_thread (join_terminate_thread H p)
  take_turn (detached_thread place) p = after_thread (run_detached_thread H place p)

  abbrev pub continue_loop :
      (Process H → Ending × Process H) → Ending × Process H → Ending × Process H
  continue_loop rest (again, p) = rest p
  continue_loop rest (ending, p) = (ending, p)

  -- The loop, over the turns that the main thread and the others take.
  unfoldable pub event_loop : List Turn → Process H → Ending × Process H
  unfolding take_turn
  event_loop [] p = (waiting, p)
  event_loop (turn ∷ turns) p = continue_loop (event_loop turns) (take_turn turn p)

  abbrev begin : H.State → Process H
  begin k = record {
    enclave_manager = default_manager H k;
    conn_listener = no_listener;
    terminate_thread = none;
    detached = [];
    describe_thread = none;
  }

  abbrev system_call : NitroCliErrorEnum → (H.State → Bool × H.State) → Exec (Process H) (Unit {0})
  system_call e f = on_state H (λ k. let (done, k') = f k in (if done then ok tt else err e, k'))

  abbrev paired : Option Stream → Exec (Process H) (Unit {0})
  paired none p = (exit socket_pair_creation_failure, p)
  paired (some pair) p = (ok tt, p)

  -- `enclave_proc_configure_signal_handler`, up to the start of the thread for the signals.
  unfoldable pub configure_signal_handler : Exec (Process H) (Unit {0})
  configure_signal_handler = do
    system_call signal_masking_error H.mask_all
    (λ p. paired (H.stream_pair p.enclave_manager.world.sys) p)
    on_listener H (add_to_epoll H)

  -- What comes before the loop; the bytes are those on the stream to the command line program.
  abbrev prepare_loop : List ℕ → Exec (Process H) EnclaveProcessCommandType
  prepare_loop comm_stream = do
    system_call epoll_error H.epoll_create
    configure_signal_handler
    on_listener H (handle_new_connection H comm_stream)

  abbrev after_prepare :
      List Turn → NitroCliResult EnclaveProcessCommandType × Process H → Ending × Process H
  after_prepare turns (ok cmd, p) = event_loop turns p
  after_prepare turns (err e, p) = (returned (err e), p)
  after_prepare turns (exit e, p) = (returned (exit e), p)

  unfoldable pub process_event_loop : List ℕ → List Turn → H.State → Ending × Process H
  unfolding configure_signal_handler event_loop
  process_event_loop comm_stream turns k = after_prepare turns (prepare_loop comm_stream (begin k))
