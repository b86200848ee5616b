-- ===== src/Enclave.antt =====
-- src/enclave_proc/resource_manager.rs: `EnclaveHandle`, the resources of one enclave. The driver of
-- Nitro Enclaves and the rest of the system are the parameter `Driver`.
pub mod Create
pub mod Terminate
pub mod Manager
pub mod Resources
pub mod Vcpus
pub mod Unready
pub mod Run
pub mod Describe
pub mod Told
pub mod Commands
mod Tests
use aws_nitro_enclaves_cli.Common.{
  ℕ, ◌+◌, ◌*◌, ◌/◌, ◌%◌, ◌^◌, Bool, true, false, not, Option, none, some, List, [], ◌∷◌, ◌++◌, ltb,
  leb, ◌==◌, if◌then◌else◌,
}
use Prim.Native.String.{String}
use aws_nitro_enclaves_cli.Common.Int.{ℤ, pos, negsuc, ltb_ℤ}
use aws_nitro_enclaves_cli.Failure.{
  NitroCliErrorEnum, NitroCliResult, ok, err, exit, ok_or_exit_with_errno, ioctl_failure,
  file_operation_failure,
}
use aws_nitro_enclaves_cli.Exec.{Exec, pure, raise, lift, gets, modify, ◌>>=◌, ◌>>◌}
use aws_nitro_enclaves_cli.Memory.{Kernel, MemoryRegion}
use aws_nitro_enclaves_cli.Memory.Allocator.{ResourceAllocator, free_allocator}
use aws_nitro_enclaves_cli.Image.{EifFile}
use aws_nitro_enclaves_cli.Cpu.Config.{EnclaveCpuConfig}
use aws_nitro_enclaves_cli.EifLoader.{BootAnswers}
use aws_nitro_enclaves_cli.EnclaveId.{BoardTag}

-- The calls of the program on the system, each with the state of the system before and after. An
-- `ioctl` answers its return code, which is negative on failure, and the argument as the driver
-- leaves it.
pub record Driver : Type 1 where
  -- `EifIdentityInfo` of the image format library
  pub Metadata : Type 0
  pub kernel : Kernel
  pub open kernel use *
  pub open_device : State → Bool × State
  pub create_vm : State → ℤ × ℕ × State
  pub get_image_load_info : ℤ → State → ℤ × ℕ × State
  pub set_user_memory_region : ℤ → MemoryRegion → State → ℤ × State
  pub add_vcpu : ℤ → ℕ → State → ℤ × ℕ × State
  pub start_enclave : ℤ → ℕ → ℕ → State → ℤ × ℕ × State
  pub close : ℤ → State → ℤ × State
  -- the bytes behind a region; `store` is their change by the program
  pub bytes_of : MemoryRegion → State → List ℕ
  pub store : MemoryRegion → List ℕ → State → State
  -- `VsockListener::bind` for the heart beat, and the wait for it with the given timeout
  pub bind_ready : State → Bool × State
  pub wait_ready : ℤ → State → BootAnswers × State
  -- a message to the connection of the request
  pub notify : State → NitroCliResult (Unit {0}) × State
  pub board_tag : State → BoardTag × State

pub data EnclaveState : Type 0 where
  empty running terminating : EnclaveState

pub record EnclaveHandle (Metadata : Type 0) : Type 0 where
  pub cpu_config : EnclaveCpuConfig
  pub cpu_ids : List ℕ
  pub allocated_memory_mib : ℕ
  pub slot_uid : ℕ
  pub enclave_cid : Option ℕ
  pub flags : ℕ
  pub enc_fd : ℤ
  pub resource_allocator : ResourceAllocator
  pub eif_file : Option EifFile
  pub state : EnclaveState
  pub build_info : List (String × String)
  pub metadata : Option Metadata

-- `enclave_cid.unwrap_or(0)`
abbrev pub cid_or_zero : Option ℕ → ℕ
cid_or_zero none = 0
cid_or_zero (some cid) = cid

-- `do_ioctl`, for the return code of the driver and the argument that it leaves.
abbrev pub do_ioctl_with {ℓ} : {A : Type ℓ} → ℤ → A → NitroCliResult A
do_ioctl_with rc arg = if ltb_ℤ rc (pos 0) then err ioctl_failure else ok arg

-- A handle and the system around it.
pub record World (D : Driver) : Type 0 where
  pub handle : EnclaveHandle D.Metadata
  pub sys : D.State

unfoldable pub clear : {M : Type 0} → EnclaveHandle M → EnclaveHandle M
clear h = record h {
  cpu_ids = [];
  allocated_memory_mib = 0;
  enclave_cid = some 0;
  enc_fd = negsuc 0;
  slot_uid = 0;
}

module _ (D : Driver) where
  -- A call on the system in a method of the handle.
  abbrev pub sys_call {ℓ} : {A : Type ℓ} → (D.State → NitroCliResult A × D.State) → Exec (World D) A
  sys_call f w = let (result, k) = f w.sys in (result, record w { sys = k })

  -- `safe_conn_println` and `safe_conn_eprintln`, where a connection may be missing.
  abbrev pub say : Bool → Exec (World D) (Unit {0})
  say connected = if connected then sys_call D.notify else pure tt

  unfoldable pub release_enclave_descriptor : ℤ → D.State → NitroCliResult (Unit {0}) × D.State
  release_enclave_descriptor enc_fd k =
      let (rc, k') = D.close enc_fd k in
      (if ltb_ℤ rc (pos 0) then err file_operation_failure else ok tt, k')

  -- `ResourceAllocator::drop`
  unfoldable pub drop_allocator : ResourceAllocator → D.State → NitroCliResult (Unit {0}) × D.State
  drop_allocator a k =
      let (result, _, k') = free_allocator D.kernel a k in (ok_or_exit_with_errno result, k')

  -- `self.resource_allocator.free()`
  unfoldable pub free_memory : Exec (World D) (Unit {0})
  free_memory w =
      let (result, a, k) = free_allocator D.kernel w.handle.resource_allocator w.sys in
      (result, record { handle = record w.handle { resource_allocator = a }; sys = k })

  -- `EnclaveHandle::terminate_enclave`
  unfoldable pub terminate_enclave : Exec (World D) (Unit {0})
  terminate_enclave w =
      if cid_or_zero w.handle.enclave_cid == 0
      then (ok tt, w)
      else (do
        sys_call (release_enclave_descriptor w.handle.enc_fd)
        free_memory
        modify (λ v. record v { handle = clear v.handle }))
          w

  abbrev reported : NitroCliResult (Unit {0}) × World D → NitroCliResult (Unit {0}) × World D
  reported (ok _, w) = (ok tt, w)
  reported (err e, w) = (ok tt, w)
  reported (exit e, w) = (exit e, w)

  -- An error of the termination is told to the user and goes no further.
  unfoldable pub terminate_enclave_and_notify : Exec (World D) (Unit {0})
  unfolding terminate_enclave
  terminate_enclave_and_notify w = reported (terminate_enclave w)

  -- `EnclaveHandle::drop`, and the drop of the allocator in it.
  unfoldable pub drop_handle : World D → NitroCliResult (Unit {0}) × D.State
  drop_handle w =
      let (result, v) =
        (if cid_or_zero w.handle.enclave_cid == 0
          then (ok tt, w)
          else terminate_enclave_and_notify w) in
      elim result [
        | ok _ ↦ drop_allocator v.handle.resource_allocator v.sys
        | err e ↦ (err e, v.sys)
        | exit e ↦ (exit e, v.sys)
      ]
