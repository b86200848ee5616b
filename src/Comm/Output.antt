-- ===== src/Comm/Output.antt =====
-- src/enclave_proc_comm.rs: `enclave_proc_handle_output` and `enclave_process_handle_all_replies`.
use aws_nitro_enclaves_cli.Common.{
  ℕ, zero, suc, ◌+◌, ◌-◌, ◌==◌, Bool, false, ◌||◌, Option, none, some, List, [], ◌∷◌, ◌++◌, map,
  ltb, if◌then◌else◌, length,
}
use aws_nitro_enclaves_cli.Common.Int.{ℤ, pos, negsuc}
use aws_nitro_enclaves_cli.Failure.{
  NitroCliResult, ok, err, exit, serde_error, enclave_process_command_not_executed,
  enclave_process_connection_failure,
}
use aws_nitro_enclaves_cli.Wire.{Codec, receive_from_stream}
use aws_nitro_enclaves_cli.Connection.Stream.{
  EnclaveProcessReply, std_out_message, std_err_message, Stream,
}
use aws_nitro_enclaves_cli.Comm.{Json}

-- What a process has sent: for the standard output, for the standard error, and its status.
pub record Output : Type 0 where
  pub stdout_str : List ℕ
  pub stderr_str : List ℕ
  pub status : Option ℤ

-- The body of the loop.
abbrev pub take_reply : EnclaveProcessReply → Output → Output
take_reply (std_out_message msg) o = record o { stdout_str = o.stdout_str ++ msg }
take_reply (std_err_message msg) o = record o { stderr_str = o.stderr_str ++ msg }
take_reply (EnclaveProcessReply.status code) o = record o { status = some code }

module _ (replies : Codec EnclaveProcessReply) where
  -- After one `receive_from_stream`.
  abbrev pub received :
      (List ℕ → Output → Output) → NitroCliResult EnclaveProcessReply × List ℕ → Output → Output
  received rest (ok reply, incoming) o = rest incoming (take_reply reply o)
  received rest (err e, incoming) o = o
  received rest (exit e, incoming) o = o

  -- The loop, over what the process sends until the connection ends. A reply takes at least the eight bytes
  -- of its length.
  unfoldable pub read_replies : ℕ → List ℕ → Output → Output
  read_replies zero incoming o = o
  read_replies (suc fuel) incoming o =
      received (read_replies fuel) (receive_from_stream replies incoming) o

  abbrev pub no_output : Output
  no_output = record { stdout_str = []; stderr_str = []; status = none }

  unfoldable pub enclave_proc_output : Stream → Output
  enclave_proc_output conn =
      let o = read_replies (suc (length conn.incoming)) conn.incoming no_output in
      if conn.closes then o else record o { status = some (negsuc 0) }

  module _ {T : Type 0} (json : Json T) where
    unfoldable pub enclave_proc_handle_output : Stream → Option T × Option ℤ
    unfolding enclave_proc_output
    enclave_proc_handle_output conn =
        let o = enclave_proc_output conn in (json.from_str o.stdout_str, o.status)

    -- A connection counts only with an object and a status.
    abbrev pub count_object : Option T × Option ℤ → List (T × ℤ) → List (T × ℤ)
    count_object (some object, some code) objects = (object, code) ∷ objects
    count_object _ objects = objects

    unfoldable pub enclave_proc_handle_outputs : List Stream → List (T × ℤ)
    enclave_proc_handle_outputs [] = []
    enclave_proc_handle_outputs (conn ∷ conns) =
        count_object (enclave_proc_handle_output conn) (enclave_proc_handle_outputs conns)

    abbrev pub same_code : ℤ → ℤ → Bool
    same_code (pos a) (pos b) = a == b
    same_code (negsuc a) (negsuc b) = a == b
    same_code _ _ = false

    unfoldable pub allowed : List ℤ → ℤ → Bool
    allowed [] code = false
    allowed (c ∷ codes) code = same_code c code || allowed codes code

    -- The number of objects whose status is not allowed.
    unfoldable pub not_allowed : List ℤ → List (T × ℤ) → ℕ
    unfolding allowed
    not_allowed codes [] = 0
    not_allowed codes (v ∷ vs) = (if allowed codes v.1 then 0 else 1) + not_allowed codes vs

    abbrev printed : Option (List ℕ) → NitroCliResult (Unit {0})
    printed none = err serde_error
    printed (some text) = ok tt

    unfoldable pub print_objects : List T → NitroCliResult (Unit {0})
    print_objects [] = ok tt
    print_objects (object ∷ objects) = elim (json.print_object object) [
      | none ↦ err serde_error
      | some text ↦ print_objects objects
    ]

    unfoldable pub print_all : Bool → List T → NitroCliResult (Unit {0})
    unfolding print_objects
    print_all print_as_vec objects =
        if print_as_vec then printed (json.print_vec objects) else print_objects objects

    abbrev pub verdict : ℕ → ℕ → List T → NitroCliResult (Unit {0}) → NitroCliResult (List T)
    verdict refused failed_conns objects (err e) = err e
    verdict refused failed_conns objects (exit e) = exit e
    verdict refused failed_conns objects (ok _) =
        if ltb 0 refused
        then err enclave_process_command_not_executed
        else if ltb 0 failed_conns
        then err enclave_process_connection_failure
        else ok objects

    unfoldable pub enclave_process_handle_all_replies :
        List Stream → ℕ → Bool → List ℤ → NitroCliResult (List T)
    enclave_process_handle_all_replies replies prev_failed_conns print_as_vec allowed_return_codes =
        let objects = enclave_proc_handle_outputs replies in
        let failed_conns = prev_failed_conns + length replies - length objects in
        let values = map (λ v. v.0) objects in
        verdict (not_allowed allowed_return_codes objects) failed_conns values
          (print_all print_as_vec values)
