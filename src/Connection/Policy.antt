-- ===== src/Connection/Policy.antt =====
-- Who may run what: the access policy of an enclave process.
use aws_nitro_enclaves_cli.Common.{ℕ, ◌≡◌, ◌≢◌, ◌↔◌, ◌⊎◌, true, some, arith}
use aws_nitro_enclaves_cli.Command.{
  EnclaveProcessCommandType, run, terminate, terminate_complete, describe, get_enclave_cid,
  get_enclave_flags, get_enclave_name, get_id_by_name, connection_listener_stop, not_permitted,
}
use aws_nitro_enclaves_cli.Connection.{
  UnixCredentials, new_with_defaults, can_execute_command, admitted,
}

-- The commands that only read.
abbrev pub IsReadOnly : EnclaveProcessCommandType → Type 0
IsReadOnly describe = Unit
IsReadOnly get_enclave_cid = Unit
IsReadOnly get_enclave_flags = Unit
IsReadOnly get_enclave_name = Unit
IsReadOnly get_id_by_name = Unit
IsReadOnly _ = ⊥

-- A requester may run a command exactly if the command only reads, or if it is a command at all and
-- the requester is root or the user of the enclave process. The group counts for nothing.
pub can_execute_command_iff :
    (uid : ℕ) (cmd : EnclaveProcessCommandType) (creds : UnixCredentials)
    → (can_execute_command (new_with_defaults uid) cmd creds ≡ true)
      ↔ (IsReadOnly cmd ⊎ (cmd ≢ not_permitted) × ((creds.uid ≡ 0) ⊎ (creds.uid ≡ uid)))
unfolding can_execute_command new_with_defaults
can_execute_command_iff uid run creds = ground arith
can_execute_command_iff uid _ creds = ground arith

-- When a run, a terminate, a terminate-complete or a stop of the listener gets past the policy, the
-- main loop is handed that very command, and root or the user of the process sent it.
admitted_lem :
    (uid : ℕ) (cmd : EnclaveProcessCommandType) (creds : UnixCredentials)
    → (cmd ≡ run)
      ⊎ (cmd ≡ terminate)
      ⊎ (cmd ≡ terminate_complete)
      ⊎ (cmd ≡ connection_listener_stop)
    → admitted uid cmd (some creds) ≢ not_permitted
    → (admitted uid cmd (some creds) ≡ cmd) × ((creds.uid ≡ 0) ⊎ (creds.uid ≡ uid))
unfolding admitted
admitted_lem uid cmd creds writes ran = ground arith
