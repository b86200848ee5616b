-- ===== src/EventLoop/Ends.antt =====
-- How a round of the event loop ends.
use aws_nitro_enclaves_cli.Common.{◌≡◌, ◌≢◌, true, false, none, List, ◌∷◌, arith}
use aws_nitro_enclaves_cli.Failure.{NitroCliErrorEnum, ok, err}
use aws_nitro_enclaves_cli.Command.{EnclaveProcessCommandType, run}
use aws_nitro_enclaves_cli.Connection.Stream.{
  EpollFlags, Stream, write_status, get_enclave_event_flags, new_connection,
}
use aws_nitro_enclaves_cli.Enclave.Manager.{get_enclave_descriptor}
use aws_nitro_enclaves_cli.Host.{Host}
use aws_nitro_enclaves_cli.Listener.{Wait, event, get_next_connection}
use aws_nitro_enclaves_cli.EventLoop.{Process, on_connection}
use aws_nitro_enclaves_cli.EventLoop.Handle.{is_nil, handle_command, handle_run, eexist}
use aws_nitro_enclaves_cli.EventLoop.Loop.{
  again, returned, execute, clean_up, reply_status, round, try_handle_enclave_event,
}

module _ (H : Host) where
  -- There is no listener left, and no thread to wait for.
  abbrev pub IsCleanedUp : Process H → Type 0
  IsCleanedUp p = (p.conn_listener.running ≡ false) × (p.terminate_thread ≡ none)

  -- Whatever error a command meets, the loop ends with it.
  execute-ne-again :
      (cmd : EnclaveProcessCommandType) (p : Process H) (e : NitroCliErrorEnum)
      → (handle_command H cmd p).0 ≡ err e
      → (execute H cmd p).0 ≢ again
  unfolding execute
  execute-ne-again cmd p e h = grind arith

  -- A process with an enclave answers a request to run another one with EEXIST, and does nothing
  -- else.
  execute-run :
      (p : Process H)
      → is_nil p.enclave_manager.enclave_id ≡ false
      → (execute H run p).1 ≡ (on_connection H (write_status H.replies eexist) p).1
  unfolding execute handle_command handle_run clean_up reply_status
  execute-run p busy = ground arith

  -- A hang-up of the enclave ends the loop with success, if its mutex is sound and its descriptor
  -- can be taken off `epoll`.
  round-hang_up :
      (p : Process H) (flags : EpollFlags) (s : Stream) (answers : List Wait)
      → p.enclave_manager.poisoned ≡ false
      → flags.hup ≡ true
      → (H.epoll_del p.enclave_manager.world.handle.enc_fd p.enclave_manager.world.sys).0 ≡ true
      → (round H (event p.enclave_manager.world.handle.enc_fd flags s ∷ answers) p).0
        ≡ returned (ok tt)
  unfolding round get_next_connection try_handle_enclave_event get_enclave_event_flags
      new_connection get_enclave_descriptor
  round-hang_up p flags s answers sound hup removed = ground arith
