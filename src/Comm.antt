-- ===== src/Comm.antt =====
-- src/enclave_proc_comm.rs: the command line program's side of the sockets of the enclave processes.
-- The JSON library is the parameter `Json`.
pub mod Output
pub mod Broadcast
pub mod Counts
pub mod Waits
pub mod Replies
pub mod Delivery
pub mod Single
mod Tests
use aws_nitro_enclaves_cli.Common.{ℕ, Option, List}

-- `from_str`, and `to_string_pretty` of a vector and of an object.
pub record Json (T : Type 0) : Type 0 where
  pub from_str : List ℕ → Option T
  pub print_vec : List T → Option (List ℕ)
  pub print_object : T → Option (List ℕ)
