-- ===== src/EventLoop.antt =====
-- src/enclave_proc/mod.rs: the state of an enclave process.
pub mod Terminate
pub mod Handle
pub mod Loop
pub mod Identity
pub mod Ends
pub mod Requests
mod Tests
use aws_nitro_enclaves_cli.Common.{ℕ, Bool, true, false, Option, none, some, List, [], ◌∷◌, ◌++◌}
use Prim.Native.String.{String}
use aws_nitro_enclaves_cli.Common.Int.{ℤ, pos}
use aws_nitro_enclaves_cli.Failure.{NitroCliResult}
use aws_nitro_enclaves_cli.Exec.{Exec}
use aws_nitro_enclaves_cli.Cpu.Config.{count}
use aws_nitro_enclaves_cli.Connection.Stream.{Connection, Stream}
use aws_nitro_enclaves_cli.Enclave.{EnclaveHandle, EnclaveState}
use aws_nitro_enclaves_cli.Enclave.Manager.{Manager}
use aws_nitro_enclaves_cli.Enclave.Run.{DescribeThreadResult}
use aws_nitro_enclaves_cli.Host.{Host}
use aws_nitro_enclaves_cli.Listener.{ConnectionListener, Listening}

-- A thread that is to terminate an enclave, with its clone of the manager: the handle is the one of
-- the process, or one that the process has replaced since.
pub record Terminating (H : Host) : Type 0 where
  pub enclave_id : List ℕ
  pub enclave_name : String
  pub replaced : Option (EnclaveHandle H.Metadata)
  pub connection : Connection
  pub thread_stream : Stream

-- The variables of `process_event_loop`, with the system in the world of the manager, and the threads
-- that still run though their handle was dropped.
pub record Process (H : Host) : Type 0 where
  pub enclave_manager : Manager H.driver
  pub conn_listener : ConnectionListener
  pub terminate_thread : Option (Terminating H)
  pub detached : List (Terminating H)
  pub describe_thread : Option (NitroCliResult (DescribeThreadResult H.Metadata))

module _ (H : Host) where
  -- `EnclaveManager::default`
  unfoldable pub default_manager : H.State → Manager H.driver
  default_manager k = record {
    enclave_id = [];
    enclave_name = "";
    poisoned = false;
    world = record {
      handle = record {
        cpu_config = count 0;
        cpu_ids = [];
        allocated_memory_mib = 0;
        slot_uid = 0;
        enclave_cid = none;
        flags = 0;
        enc_fd = pos 0;
        resource_allocator = record { requested_mem = 0; mem_regions = [] };
        eif_file = none;
        state = EnclaveState.empty;
        build_info = [];
        metadata = none;
      };
      sys = k;
    };
  }

  abbrev pub set_system : H.State → Process H → Process H
  set_system k p = record p {
    enclave_manager = record p.enclave_manager {
      world = record p.enclave_manager.world { sys = k };
    };
  }

  module _ {A : Type 0} where
    abbrev pub on_manager : Exec (Manager H.driver) A → Exec (Process H) A
    on_manager body p =
        let (result, m) = body p.enclave_manager in (result, record p { enclave_manager = m })

    abbrev pub on_state : Exec H.State A → Exec (Process H) A
    on_state body p = let (result, k) = body p.enclave_manager.world.sys in (result, set_system k p)

    -- A method of the connection whose request is handled.
    abbrev pub on_connection : Exec Connection A → Exec (Process H) A
    on_connection body =
        on_state (λ k. let (result, c) = body (H.connection k) in (result, H.set_connection c k))

    abbrev pub on_listener : Exec (Listening H) A → Exec (Process H) A
    on_listener body p =
        let (result, w) =
          body (record { listener = p.conn_listener; sys = p.enclave_manager.world.sys }) in
        (result, set_system w.sys (record p { conn_listener = w.listener }))
