-- ===== src/EventLoop/Identity.antt =====
-- The enclave of a process keeps its ID and its name.
use aws_nitro_enclaves_cli.Common.{
  ℕ, ◌≡◌, refl, ap, ◌∙◌, Bool, false, Option, none, some, List, [], ◌∷◌, arith,
}
use Prim.Native.String.{String}
use aws_nitro_enclaves_cli.Failure.{NitroCliErrorEnum, NitroCliResult, ok, err, exit}
use aws_nitro_enclaves_cli.Exec.{Exec, Keeps}
use aws_nitro_enclaves_cli.Command.{
  EnclaveProcessCommandType, run, terminate, terminate_complete, describe, get_enclave_cid,
  get_enclave_flags, get_enclave_name, get_id_by_name, connection_listener_stop, not_permitted,
}
use aws_nitro_enclaves_cli.Wire.{or_raise}
use aws_nitro_enclaves_cli.Connection.Stream.{Connection, read_command}
use aws_nitro_enclaves_cli.Enclave.{World}
use aws_nitro_enclaves_cli.Enclave.Manager.{
  Manager, locked, get_description_resources, get_measurements, get_metadata, set_measurements,
  set_metadata, get_console_resources_enclave_cid, get_console_resources_enclave_flags,
}
use aws_nitro_enclaves_cli.Enclave.Describe.{get_enclave_describe_info}
use aws_nitro_enclaves_cli.Host.{Host}
use aws_nitro_enclaves_cli.Common.Int.{ℤ}
use aws_nitro_enclaves_cli.Listener.{get_next_connection}
use aws_nitro_enclaves_cli.EventLoop.Loop.{
  Ending, again, waiting, panicked, returned, Turn, main, terminate_thread, detached_thread,
  take_turn, event_loop, execute, reply_status, clean_up, round, try_handle_enclave_event,
  HandledEnclaveEvent, hang_up, unexpected, no_event, after_read, after_event, after_wait,
  descriptor_of, continue_loop,
}
use aws_nitro_enclaves_cli.EventLoop.{Process, on_state, on_connection}
use aws_nitro_enclaves_cli.EventLoop.Terminate.{
  notify_terminate, join_terminate_thread, run_detached_thread,
}
use aws_nitro_enclaves_cli.EventLoop.Handle.{
  is_nil, handle_command, handle_run, handle_terminate, handle_describe, fetch_describe_result,
  eexist,
}

module _ (H : Host) where
  -- The enclave of a process.
  abbrev pub identity : Process H → List ℕ × String
  identity p = (p.enclave_manager.enclave_id, p.enclave_manager.enclave_name)

  -- The manager's part of that.
  abbrev named : Manager H.driver → List ℕ × String
  named m = (m.enclave_id, m.enclave_name)

  Keeps-or_raise :
      {A : Type 0} (e : NitroCliErrorEnum) (a : Option A) → Keeps identity (or_raise e a)
  Keeps-or_raise e none w = refl
  Keeps-or_raise e (some a) w = refl

  Keeps-locked : {A : Type 0} (body : Exec (World H.driver) A) → Keeps named (locked H.driver body)
  Keeps-locked body m = ground arith

  Keeps-notify_terminate : Keeps identity (notify_terminate H)
  unfolding notify_terminate
  Keeps-notify_terminate p = ground arith

  Keeps-join : Keeps identity (join_terminate_thread H)
  unfolding join_terminate_thread
  Keeps-join p = ground arith

  Keeps-detached : (place : ℕ) → Keeps identity (run_detached_thread H place)
  unfolding run_detached_thread
  Keeps-detached place p = ground arith

  Keeps-terminate : Keeps identity (handle_terminate H)
  unfolding handle_terminate
  Keeps-terminate p = ground (arith, Keeps-notify_terminate p)

  Keeps-info : (with_metadata : Bool) → Keeps named (get_enclave_describe_info H with_metadata)
  unfolding get_enclave_describe_info get_description_resources get_measurements get_metadata
  Keeps-info with_metadata m = ground arith

  Keeps-fetch : Keeps identity (fetch_describe_result H)
  unfolding fetch_describe_result set_measurements set_metadata
  Keeps-fetch p = ground arith

  Keeps-describe : Keeps identity (handle_describe H)
  unfolding handle_describe
  Keeps-describe p = grind (arith, Keeps-fetch, Keeps-info)

  -- A process with an enclave runs no other.
  handle_run-busy :
      (p : Process H)
      → is_nil p.enclave_manager.enclave_id ≡ false
      → handle_run H p ≡ (ok (some (eexist, false)), p)
  unfolding handle_run
  handle_run-busy p busy = ground arith

  -- What a process with an enclave keeps.
  abbrev Stays : {A : Type 0} → A × Process H → Process H → Type 0
  Stays r p = identity r.1 ≡ identity p

  handle_command-Stays :
      (cmd : EnclaveProcessCommandType) (p : Process H)
      → is_nil p.enclave_manager.enclave_id ≡ false
      → Stays (handle_command H cmd p) p
  unfolding handle_command get_console_resources_enclave_cid get_console_resources_enclave_flags
  handle_command-Stays run p busy = ground (arith, handle_run-busy p busy)
  handle_command-Stays terminate p busy = Keeps-terminate p
  handle_command-Stays terminate_complete p busy = refl
  handle_command-Stays describe p busy = Keeps-describe p
  handle_command-Stays get_enclave_cid p busy = ground arith
  handle_command-Stays get_enclave_flags p busy = ground arith
  handle_command-Stays get_enclave_name p busy = ground arith
  handle_command-Stays get_id_by_name p busy = ground arith
  handle_command-Stays connection_listener_stop p busy = refl
  handle_command-Stays not_permitted p busy = refl

  Keeps-clean_up : (done : Bool) → Keeps identity (clean_up H done)
  unfolding clean_up
  Keeps-clean_up done p = grind (arith, Keeps-join)

  Keeps-reply :
      (cmd : EnclaveProcessCommandType) (code : ℤ) → Keeps identity (reply_status H cmd code)
  unfolding reply_status
  Keeps-reply cmd code p = ground arith

  execute-Stays :
      (cmd : EnclaveProcessCommandType) (p : Process H)
      → is_nil p.enclave_manager.enclave_id ≡ false
      → Stays (execute H cmd p) p
  unfolding execute
  execute-Stays cmd p busy =
      grind (arith, handle_command-Stays cmd p busy, Keeps-clean_up, Keeps-reply cmd)

  -- The same for what follows a part of a round that keeps the identity.
  module _ (p : Process H) (busy : is_nil p.enclave_manager.enclave_id ≡ false) where
    busy_on :
        (q : Process H) → identity q ≡ identity p → is_nil q.enclave_manager.enclave_id ≡ false
    busy_on q same = ap (λ v. is_nil v.0) same ∙ busy

    after_read-Stays :
        (r : NitroCliResult EnclaveProcessCommandType × Process H)
        → Stays r p
        → Stays (after_read H r) p
    after_read-Stays (ok cmd, q) same = execute-Stays cmd q (busy_on q same) ∙ same
    after_read-Stays (err e, q) same = same
    after_read-Stays (exit e, q) same = same

    after_event-Stays :
        (r : NitroCliResult HandledEnclaveEvent) (q : Process H)
        → identity q ≡ identity p
        → Stays (after_event H r q) p
    after_event-Stays (ok hang_up) q same = same
    after_event-Stays (ok unexpected) q same = same
    after_event-Stays (ok no_event) q same =
        after_read-Stays (on_connection H (read_command H.commands H.uid) q) same
    after_event-Stays (err e) q same = same
    after_event-Stays (exit e) q same = same

    after_wait-Stays :
        (r : NitroCliResult (Option Connection) × Process H) → Stays r p → Stays (after_wait H r) p
    after_wait-Stays (ok none, q) same = same
    after_wait-Stays (ok (some connection), q) same =
        after_event-Stays (try_handle_enclave_event connection)
          (on_state H (λ k. (ok tt, H.set_connection connection k)) q).1 same
    after_wait-Stays (err e, q) same = same
    after_wait-Stays (exit e, q) same = same

  take_turn-Stays :
      (turn : Turn) (p : Process H)
      → is_nil p.enclave_manager.enclave_id ≡ false
      → Stays (take_turn H turn p) p
  unfolding take_turn round
  take_turn-Stays (main answers) p busy =
      after_wait-Stays p busy
        (on_state H (get_next_connection H (descriptor_of H p.enclave_manager) answers) p) refl
  take_turn-Stays terminate_thread p busy = grind (arith, Keeps-join p)
  take_turn-Stays (detached_thread place) p busy = grind (arith, Keeps-detached place p)

  continue_loop-Stays :
      (rest : Process H → Ending × Process H) (r : Ending × Process H) (p : Process H)
      → Stays r p
      → Stays (rest r.1) r.1
      → Stays (continue_loop H rest r) p
  continue_loop-Stays rest (again, q) p same later = later ∙ same
  continue_loop-Stays rest (waiting, q) p same later = same
  continue_loop-Stays rest (panicked, q) p same later = same
  continue_loop-Stays rest (returned result, q) p same later = same

  -- A process that has an enclave keeps its ID and its name, whatever requests, events and threads
  -- take turns, up to the end of the loop.
  pub event_loop-identity :
      (turns : List Turn) (p : Process H)
      → is_nil p.enclave_manager.enclave_id ≡ false
      → identity (event_loop H turns p).1 ≡ identity p
  unfolding event_loop
  event_loop-identity [] p busy = refl
  event_loop-identity (turn ∷ turns) p busy =
      let same = take_turn-Stays turn p busy in
      let q = (take_turn H turn p).1 in
      continue_loop-Stays (event_loop H turns) (take_turn H turn p) p same
        (event_loop-identity turns q (busy_on p busy q same))
