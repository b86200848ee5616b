-- ===== src/Command.antt =====
-- src/common/mod.rs: the commands that an enclave process receives.
use aws_nitro_enclaves_cli.Common.{Bool, true, false}

pub data EnclaveProcessCommandType : Type 0 where
  run terminate terminate_complete describe get_enclave_cid get_enclave_flags get_enclave_name
        get_id_by_name connection_listener_stop not_permitted :
      EnclaveProcessCommandType

-- The derived `PartialEq`.
abbrev pub same_command : EnclaveProcessCommandType → EnclaveProcessCommandType → Bool
same_command run run = true
same_command terminate terminate = true
same_command terminate_complete terminate_complete = true
same_command describe describe = true
same_command get_enclave_cid get_enclave_cid = true
same_command get_enclave_flags get_enclave_flags = true
same_command get_enclave_name get_enclave_name = true
same_command get_id_by_name get_id_by_name = true
same_command connection_listener_stop connection_listener_stop = true
same_command not_permitted not_permitted = true
same_command _ _ = false
