-- ===== src/Args.antt =====
-- src/common/commands_parser.rs: the arguments of `run-enclave`. Texts are native strings.
pub mod Parse
pub mod Accepted
pub mod Others
mod Tests
use aws_nitro_enclaves_cli.Common.{ℕ, Bool, Option, List}
use Prim.Native.String.{String}

pub record RunEnclavesArgs : Type 0 where
  pub eif_path : String
  pub enclave_cid : Option ℕ
  pub memory_mib : ℕ
  pub cpu_ids : Option (List ℕ)
  pub debug_mode : Bool
  pub attach_console : Bool
  pub cpu_count : Option ℕ
  pub enclave_name : Option String
