-- ===== src/EventLoop/Handle.antt =====
-- src/enclave_proc/mod.rs: `handle_command` and `fetch_describe_result`.
use text.Mathlib.Text.{◌==◌ as str_eq}
use aws_nitro_enclaves_cli.Common.{
  ℕ, Bool, true, false, not, ◌||◌, Option, none, some, List, [], ◌∷◌, ◌++◌, map, if◌then◌else◌,
}
use aws_nitro_enclaves_cli.Common.Int.{ℤ, pos}
use aws_nitro_enclaves_cli.Failure.{NitroCliResult, ok, err, logger_error, serde_error}
use aws_nitro_enclaves_cli.Exec.{Exec, pure, lift, gets, modify, ◌>>=◌, ◌>>◌}
use aws_nitro_enclaves_cli.Command.{
  EnclaveProcessCommandType, run, terminate, terminate_complete, describe, get_enclave_cid,
  get_enclave_flags, get_enclave_name, get_id_by_name, connection_listener_stop, not_permitted,
}
use aws_nitro_enclaves_cli.Text.{to_string}
use aws_nitro_enclaves_cli.EnclaveId.{split_enc}
use aws_nitro_enclaves_cli.Wire.{or_raise}
use aws_nitro_enclaves_cli.Connection.Stream.{read, write_u64, println}
use aws_nitro_enclaves_cli.Comm.Broadcast.{msg_enclave_confirm}
use aws_nitro_enclaves_cli.Enclave.{EnclaveHandle, World, drop_handle}
use aws_nitro_enclaves_cli.Enclave.Manager.{
  Manager, set_measurements, set_metadata, get_console_resources_enclave_cid,
  get_console_resources_enclave_flags, get_enclave_descriptor,
}
use aws_nitro_enclaves_cli.Enclave.Run.{DescribeThreadResult, run_enclaves}
use aws_nitro_enclaves_cli.Enclave.Describe.{get_enclave_describe_info}
use aws_nitro_enclaves_cli.Host.{Host, EnclaveDescribeInfo}
use aws_nitro_enclaves_cli.Listener.{add_to_epoll, start, last_token}
use aws_nitro_enclaves_cli.EventLoop.{
  Terminating, Process, on_manager, on_state, on_connection, on_listener,
}
use aws_nitro_enclaves_cli.EventLoop.Terminate.{notify_terminate}

-- The status for the other end, and whether the loop is over; `none` is a panic of the process.
abbrev pub Handled : Type 0
Handled = Option (ℤ × Bool)

abbrev pub go_on : Handled
go_on = some (pos 0, false)

abbrev pub eacces : ℤ
eacces = pos 13

abbrev pub eexist : ℤ
eexist = pos 17

abbrev pub einval : ℤ
einval = pos 22

-- `enclave_id.is_empty()`
abbrev pub is_nil : List ℕ → Bool
is_nil [] = true
is_nil (c ∷ cs) = false

module _ (H : Host) where
  -- "enc-" with the last piece of the ID, a colon and the number of the process.
  unfoldable pub get_logger_id : List ℕ → List ℕ
  unfolding last_token to_string
  get_logger_id enclave_id =
      b'e' ∷ b'n' ∷ b'c' ∷ b'-' ∷ last_token (split_enc 0 enclave_id) ++ b':' ∷ to_string H.pid

  -- The clones of a handle that the process gives up.
  abbrev keep : EnclaveHandle H.Metadata → Terminating H → Terminating H
  keep old t = elim t.replaced [ none ↦ record t { replaced = some old } | some handle ↦ t ]

  abbrev shares : Option (Terminating H) → Bool
  shares none = false
  shares (some t) = elim t.replaced [ none ↦ true | some handle ↦ false ]

  abbrev share : List (Terminating H) → Bool
  share [] = false
  share (t ∷ ts) = shares (some t) || share ts

  abbrev keep_of : EnclaveHandle H.Metadata → Option (Terminating H) → Option (Terminating H)
  keep_of old none = none
  keep_of old (some t) = some (keep old t)

  -- `*enclave_manager = run_result.enclave_manager` and the same for the thread. The old handle is
  -- dropped unless a thread still has it.
  abbrev install :
      Manager H.driver × NitroCliResult (DescribeThreadResult H.Metadata)
      → Exec (Process H) (Unit {0})
  install (m, describe_thread) p =
      let old : World H.driver = record p.enclave_manager.world { sys = m.world.sys } in
      let (result, k) =
        (if shares p.terminate_thread || share p.detached
          then (ok tt, m.world.sys)
          else drop_handle H.driver old) in
      (
        result,
        record p {
          enclave_manager = record m { world = record m.world { sys = k } };
          terminate_thread = keep_of old.handle p.terminate_thread;
          detached = map (keep old.handle) p.detached;
          describe_thread = some describe_thread;
        },
      )

  abbrev update_logger_id : List ℕ → Exec (Process H) (Unit {0})
  update_logger_id id = on_state H (λ k.
      let (done, k') = H.update_logger_id id k in (if done then ok tt else err logger_error, k'))

  -- The command `Run` where there is no enclave.
  unfoldable pub run_new : Exec (Process H) Handled
  unfolding get_logger_id
  run_new = do
    run_args ← on_connection H (read H.run_args)
    run_result ← on_state H (run_enclaves H run_args)
    install run_result
    enclave_id ← gets (λ p. p.enclave_manager.enclave_id)
    update_logger_id (get_logger_id enclave_id)
    on_listener H (start H enclave_id)
    on_manager H (get_enclave_descriptor H.driver)
    on_listener H (add_to_epoll H)
    pure go_on

  unfoldable pub handle_run : Exec (Process H) Handled
  unfolding run_new
  handle_run p =
      if not (is_nil p.enclave_manager.enclave_id)
      then (ok (some (eexist, false)), p)
      else run_new p

  -- The handle of an earlier thread is dropped.
  abbrev detach : Option (Terminating H) → List (Terminating H) → List (Terminating H)
  detach none ts = ts
  detach (some t) ts = t ∷ ts

  unfoldable pub handle_terminate : Exec (Process H) Handled
  handle_terminate = do
    thread ← notify_terminate H
    modify (λ p. record p {
      terminate_thread = some thread;
      detached = detach p.terminate_thread p.detached;
    })
    pure go_on

  abbrev save_metadata : Option H.Metadata → Exec (Process H) (Unit {0})
  save_metadata none = pure tt
  save_metadata (some metadata) = on_manager H (set_metadata H.driver metadata)

  abbrev save_result :
      Option (NitroCliResult (DescribeThreadResult H.Metadata)) → Exec (Process H) (Unit {0})
  save_result none = pure tt
  save_result (some thread) = do
    modify (λ p. record p { describe_thread = none })
    result ← lift thread
    on_manager H (set_measurements H.driver result.measurements)
    save_metadata result.metadata

  unfoldable pub fetch_describe_result : Exec (Process H) (Unit {0})
  fetch_describe_result p = save_result p.describe_thread p

  -- The text is there, or the JSON library fails.
  abbrev print : Option (List ℕ) → Exec (Process H) Handled
  print text = do
    msg ← or_raise serde_error text
    on_connection H (println H.replies msg)
    pure go_on

  abbrev print_info : Option (EnclaveDescribeInfo H.Value) → Exec (Process H) Handled
  print_info none = pure none
  print_info (some info) = print (H.print_describe info)

  unfoldable pub handle_describe : Exec (Process H) Handled
  unfolding fetch_describe_result
  handle_describe = do
    with_metadata ← on_connection H (read H.describe_args)
    on_connection H (write_u64 msg_enclave_confirm)
    fetch_describe_result
    info ← on_manager H (get_enclave_describe_info H with_metadata)
    print_info info

  -- `none` is the panic of `get_console_resources_enclave_cid`.
  abbrev write_cid : Option ℕ → Exec (Process H) Handled
  write_cid none = pure none
  write_cid (some enclave_cid) = do on_connection H (write_u64 enclave_cid); pure go_on

  abbrev print_if : Bool → Option (List ℕ) → Exec (Process H) Handled
  print_if wanted text = if wanted then print text else pure go_on

  unfoldable pub handle_command : EnclaveProcessCommandType → Exec (Process H) Handled
  unfolding handle_run handle_terminate handle_describe
  handle_command run = handle_run
  handle_command terminate = handle_terminate
  handle_command terminate_complete = pure (some (pos 0, true))
  handle_command get_enclave_cid = do
    enclave_cid ← on_manager H (get_console_resources_enclave_cid H.driver)
    write_cid enclave_cid
  handle_command get_enclave_flags = do
    enclave_flags ← on_manager H (get_console_resources_enclave_flags H.driver)
    on_connection H (write_u64 enclave_flags)
    pure go_on
  handle_command get_enclave_name = do
    on_connection H (write_u64 msg_enclave_confirm)
    text ← gets (λ p. H.print_name p.enclave_manager.enclave_name)
    print text
  handle_command get_id_by_name = do
    on_connection H (write_u64 msg_enclave_confirm)
    name ← on_connection H (read H.names)
    matches ← gets (λ p. str_eq p.enclave_manager.enclave_name name)
    text ← gets (λ p. H.print_id p.enclave_manager.enclave_id)
    print_if matches text
  handle_command describe = handle_describe
  handle_command connection_listener_stop = pure (some (pos 0, true))
  handle_command not_permitted = pure (some (eacces, false))
