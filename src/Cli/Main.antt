-- ===== src/Cli/Main.antt =====
-- src/main.rs: the commands of the command line program that talk to enclave processes. What the system, the
-- processes and the console answer are parameters; each error ends the program.
use aws_nitro_enclaves_cli.Common.{
  ℕ, Bool, true, false, Option, none, some, List, [], ◌∷◌, ◌++◌, ◌==◌, if◌then◌else◌,
}
use Prim.Native.Nat.{bit_and}
use Prim.Native.String.{String}
use aws_nitro_enclaves_cli.Common.Int.{pos}
use aws_nitro_enclaves_cli.Failure.{
  NitroCliResult, err, ok_or_exit_with_errno, enclave_naming_error,
  enclave_console_connection_failure,
}
use aws_nitro_enclaves_cli.Exec.{Exec, pure, lift, modify, continue, ◌>>=◌, ◌>>◌}
use aws_nitro_enclaves_cli.Command.{EnclaveProcessCommandType, run, terminate}
use aws_nitro_enclaves_cli.Wire.{Codec, enclave_proc_command_send_single}
use aws_nitro_enclaves_cli.Connection.Stream.{EnclaveProcessReply, Stream, on_sink}
use aws_nitro_enclaves_cli.Enclave.Create.{ne_enclave_debug_mode}
use aws_nitro_enclaves_cli.Args.{RunEnclavesArgs}
use aws_nitro_enclaves_cli.Args.Parse.{ArgMatches, new_with}
use aws_nitro_enclaves_cli.Args.Others.{CommandMatches, ok_or, console_args, terminate_args}
use aws_nitro_enclaves_cli.Comm.{Json}
use aws_nitro_enclaves_cli.Comm.Output.{enclave_process_handle_all_replies}
use aws_nitro_enclaves_cli.Comm.Single.{
  enclave_proc_connect_to_single, enclave_proc_get_cid, enclave_proc_get_flags,
}
use aws_nitro_enclaves_cli.Cli.{get_all_enclave_names}
use aws_nitro_enclaves_cli.Cli.Names.{new_enclave_name}
use aws_nitro_enclaves_cli.Cli.Console.{console_port}

-- The socket to the enclave process in use, and the ports of the consoles that were attached, with the seconds
-- of their timeouts.
pub record Program : Type 0 where
  pub comm : Option Stream
  pub attached : List (ℕ × Option ℕ)

-- `ok_or_exit_with_errno` on a step.
abbrev pub or_exit {ℓ} : {A : Type ℓ} → NitroCliResult A → Exec Program A
or_exit r = lift (ok_or_exit_with_errno r)

-- The test of the flags of the enclave.
abbrev pub check_debug : ℕ → Exec Program (Unit {0})
check_debug enclave_flags =
    if bit_and enclave_flags ne_enclave_debug_mode == 0
    then or_exit (err enclave_console_connection_failure)
    else pure tt

abbrev connected_to : Option Stream → Exec Program Stream
connected_to comm p =
    (ok_or_exit_with_errno (enclave_proc_connect_to_single comm), record p { comm = comm })

abbrev pub characters_of : (String → List ℕ) → Option String → Option (List ℕ)
characters_of characters none = none
characters_of characters (some text) = some (characters text)

abbrev pub with_name : (List ℕ → String) → RunEnclavesArgs → List ℕ → RunEnclavesArgs
with_name of_characters args name = record args { enclave_name = some (of_characters name) }

abbrev pub first {ℓ} : {A : Type ℓ} → List A → Option A
first [] = none
first (a ∷ others) = some a

module _ (commands : Codec EnclaveProcessCommandType) where
  -- The command is sent on the socket in use, which keeps what was written.
  abbrev pub send_on :
      {A : Type 0} → Codec A → EnclaveProcessCommandType → Option A → Stream → Exec Program Stream
  send_on arguments cmd args comm p =
      let (result, sent) =
        on_sink (enclave_proc_command_send_single commands arguments cmd args) comm in
      continue (ok_or_exit_with_errno result, record p { comm = some sent }) (λ _. pure sent)

module _ (console : ℕ → Option ℕ → NitroCliResult (Unit {0})) where
  -- `enclave_console`; `console` is what comes of the connection to a port and of the reads from it.
  unfoldable pub console_enclaves : ℕ → Option ℕ → Exec Program (Unit {0})
  console_enclaves enclave_cid disconnect_timeout_sec = do
    port ← or_exit (console_port enclave_cid)
    modify
        (λ (p : Program). record p { attached = p.attached ++ (port, disconnect_timeout_sec) ∷ [] })
    or_exit (console port disconnect_timeout_sec)

  abbrev pub attach_if : Bool → ℕ → Exec Program (Unit {0})
  attach_if attach_console enclave_cid =
      if attach_console then console_enclaves enclave_cid none else pure tt

  module _ (commands : Codec EnclaveProcessCommandType) where
    -- The branch `console`. Each of the two questions has a connection of its own.
    unfoldable pub console_command :
        (List ℕ → NitroCliResult (List ℕ))
        → (List ℕ → Option Stream)
        → (List ℕ → Option Stream)
        → CommandMatches
        → Exec Program (Unit {0})
    console_command get_id_by_name for_cid for_flags args = do
      (enclave_id, timeout) ← or_exit (console_args get_id_by_name args)
      enclave_cid ← or_exit (enclave_proc_get_cid commands (for_cid enclave_id))
      enclave_flags ← or_exit (enclave_proc_get_flags commands (for_flags enclave_id))
      check_debug enclave_flags
      console_enclaves enclave_cid timeout

    module _ (replies : Codec EnclaveProcessReply) where
      -- The branch `terminate-enclave` for one enclave; `T` is what a termination reports.
      unfoldable pub terminate_command :
          {T : Type 0}
          → Json T
          → (List ℕ → NitroCliResult (List ℕ))
          → (List ℕ → Option Stream)
          → CommandMatches
          → Exec Program (Unit {0})
      terminate_command json get_id_by_name connect args = do
        enclave_id ← or_exit (terminate_args get_id_by_name args)
        comm ← connected_to (connect enclave_id)
        comm ← send_on commands commands terminate none comm
        or_exit (enclave_process_handle_all_replies replies json (comm ∷ []) 0 false (pos 0 ∷ []))
        pure tt

      -- The branch `describe-enclaves`. `asked` is what comes of the broadcast: the processes that have
      -- confirmed the command, and the number of those that failed.
      unfoldable pub describe_command :
          {T : Type 0} → Json T → NitroCliResult (List Stream × ℕ) → Exec Program (Unit {0})
      describe_command json asked = do
        (comms, comm_errors) ← or_exit asked
        or_exit
            (enclave_process_handle_all_replies replies json comms comm_errors true (pos 0 ∷ []))
        pure tt

      -- Texts of the arguments as lists of code points, and back.
      module _ (characters : String → List ℕ) (of_characters : List ℕ → String) where
        -- The branch `run-enclave`. `spawned` is the socket to the new process, `asked` the processes that have
        -- confirmed the question for their names, `cid_of` the field of a report.
        unfoldable pub run_command :
            {T : Type 0}
            → Codec RunEnclavesArgs
            → Json (List ℕ)
            → Json T
            → (T → ℕ)
            → ArgMatches
            → NitroCliResult Stream
            → NitroCliResult (List Stream)
            → Exec Program (Unit {0})
        run_command arguments texts json cid_of matches spawned asked = do
          args ← or_exit (new_with matches)
          comm ← or_exit spawned
          comms ← or_exit asked
          name ← or_exit (
              ok_or enclave_naming_error (
                new_enclave_name (characters args.eif_path)
                  (characters_of characters args.enclave_name)
                  (get_all_enclave_names replies texts comms)))
          comm ← send_on commands arguments run (some (with_name of_characters args name)) comm
          run_info ←
              or_exit
                (enclave_process_handle_all_replies replies json (comm ∷ []) 0 false (pos 0 ∷ []))
          report ← or_exit (ok_or enclave_console_connection_failure (first run_info))
          attach_if args.attach_console (cid_of report)
