-- ===== src/EventLoop/Terminate.antt =====
-- src/enclave_proc/mod.rs: the termination of an enclave, on a thread of its own.
use aws_nitro_enclaves_cli.Common.{
  ℕ, true, false, Option, none, some, List, ◌++◌, suc, take, drop, get_elem?,
}
use aws_nitro_enclaves_cli.Failure.{
  NitroCliErrorEnum, NitroCliResult, ok, err, exit, ok_or_exit_with_errno,
  socket_pair_creation_failure,
}
use aws_nitro_enclaves_cli.Exec.{Exec, gets, ◌>>=◌, ◌>>◌}
use aws_nitro_enclaves_cli.Command.{EnclaveProcessCommandType, terminate_complete}
use aws_nitro_enclaves_cli.Wire.{or_raise, enclave_proc_command_send_single}
use aws_nitro_enclaves_cli.Connection.Stream.{Connection, Stream, eprintln}
use aws_nitro_enclaves_cli.Enclave.{EnclaveHandle, drop_handle}
use aws_nitro_enclaves_cli.Enclave.Manager.{Manager}
use aws_nitro_enclaves_cli.Enclave.Commands.{terminate_enclaves}
use aws_nitro_enclaves_cli.Host.{Host}
use aws_nitro_enclaves_cli.Listener.{add_to_epoll, shut_down}
use aws_nitro_enclaves_cli.EventLoop.{Terminating, Process, set_system, on_listener}

-- `ConnectionData::drop`
abbrev pub close_input : Connection → NitroCliResult (Unit {0})
close_input c = elim c.input_stream [ none ↦ ok tt | some s ↦ ok_or_exit_with_errno (shut_down s) ]

module _ (H : Host) where
  -- An error on the way to the other end of the connection ends the process.
  unfoldable pub notify_error_with_conn : NitroCliErrorEnum → Exec Connection (Unit {0})
  notify_error_with_conn e c =
      let (result, c') = eprintln H.replies (H.construct_error_message e) c in
      (ok_or_exit_with_errno result, c')

  -- Both steps end the process on an error.
  unfoldable pub send_command_and_close :
      EnclaveProcessCommandType → Stream → NitroCliResult (Unit {0})
  send_command_and_close cmd stream =
      elim (ok_or_exit_with_errno
        (enclave_proc_command_send_single H.commands H.commands cmd none stream.sink).0) [
          | ok _ ↦ ok_or_exit_with_errno (shut_down stream)
          | err e ↦ err e
          | exit e ↦ exit e
        ]

  -- An error of the termination goes to the connection.
  abbrev reported :
      NitroCliResult (Unit {0}) × Manager H.driver → NitroCliResult (Unit {0}) × Manager H.driver
  reported (ok _, m) = (ok tt, m)
  reported (err e, m) =
      let (result, c) = notify_error_with_conn e (H.connection m.world.sys) in
      (result, record m { world = record m.world { sys = H.set_connection c m.world.sys } })
  reported (exit e, m) = (exit e, m)

  abbrev after_report : Stream → NitroCliResult (Unit {0}) → NitroCliResult (Unit {0})
  after_report thread_stream (ok _) = send_command_and_close terminate_complete thread_stream
  after_report thread_stream (err e) = err e
  after_report thread_stream (exit e) = exit e

  -- `run_terminate`, on the thread's clone of the manager.
  unfoldable pub run_terminate : Stream → Exec (Manager H.driver) (Unit {0})
  unfolding send_command_and_close notify_error_with_conn
  run_terminate thread_stream m =
      let (result, m') = reported (terminate_enclaves H.driver H.encodes_termination true m) in
      (after_report thread_stream result, m')

  -- The clone has the ID and the name from when it was made.
  abbrev clone_of : Terminating H → Manager H.driver → Manager H.driver
  clone_of t m = record m { enclave_id = t.enclave_id; enclave_name = t.enclave_name }

  -- Where the handle is the one of the process, its changes are seen there.
  abbrev run_shared : Terminating H → Exec (Process H) (Unit {0})
  run_shared t p =
      let (result, m) = run_terminate t.thread_stream (clone_of t p.enclave_manager) in
      (result, record p { enclave_manager = record p.enclave_manager { world = m.world } })

  -- A handle that the process has replaced is dropped at the end of the thread.
  abbrev run_replaced : Terminating H → EnclaveHandle H.Metadata → Exec (Process H) (Unit {0})
  run_replaced t handle p =
      let m = p.enclave_manager in
      let (result, m') =
        run_terminate t.thread_stream (
          clone_of t (record m { poisoned = false; world = record m.world { handle = handle } })) in
      let (dropped, k) = drop_handle H.driver m'.world in
      (elim result [ ok _ ↦ dropped | err e ↦ err e | exit e ↦ exit e ], set_system H k p)

  abbrev run_on : Terminating H → Option (EnclaveHandle H.Metadata) → Exec (Process H) (Unit {0})
  run_on t none = run_shared t
  run_on t (some handle) = run_replaced t handle

  abbrev closed : NitroCliResult (Unit {0}) → Connection → NitroCliResult (Unit {0})
  closed (ok _) c = close_input c
  closed (err e) c = err e
  closed (exit e) c = exit e

  -- The whole thread, with its own connection in place of the one of the process, which it drops.
  abbrev run_thread : Terminating H → Exec (Process H) (Unit {0})
  run_thread t p =
      let k = p.enclave_manager.world.sys in
      let (result, p') = run_on t t.replaced (set_system H (H.set_connection t.connection k) p) in
      (
        closed result (H.connection p'.enclave_manager.world.sys),
        set_system H (H.set_connection (H.connection k) p'.enclave_manager.world.sys) p',
      )

  abbrev join : Option (Terminating H) → Exec (Process H) (Unit {0})
  join none p = (ok tt, p)
  join (some t) p = run_thread t (record p { terminate_thread = none })

  -- The thread, if any, runs to its end and is joined.
  unfoldable pub join_terminate_thread : Exec (Process H) (Unit {0})
  unfolding run_terminate
  join_terminate_thread p = join p.terminate_thread p

  abbrev without : List (Terminating H) → ℕ → List (Terminating H)
  without ts place = take place ts ++ drop (suc place) ts

  abbrev run_found : Option (Terminating H) → ℕ → Exec (Process H) (Unit {0})
  run_found none place p = (ok tt, p)
  run_found (some t) place p = run_thread t (record p { detached = without p.detached place })

  -- A thread whose handle the process has dropped runs to its end.
  unfoldable pub run_detached_thread : ℕ → Exec (Process H) (Unit {0})
  unfolding run_terminate
  run_detached_thread place p = run_found (get_elem? p.detached place) place p

  -- `notify_terminate`
  unfoldable pub notify_terminate : Exec (Process H) (Terminating H)
  notify_terminate = do
    pair ← gets (λ p. H.stream_pair p.enclave_manager.world.sys)
    thread_stream ← or_raise socket_pair_creation_failure pair
    on_listener H (add_to_epoll H)
    gets (λ p. record {
      enclave_id = p.enclave_manager.enclave_id;
      enclave_name = p.enclave_manager.enclave_name;
      replaced = none;
      connection = H.connection p.enclave_manager.world.sys;
      thread_stream = thread_stream;
    })
