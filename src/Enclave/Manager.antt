-- ===== src/Enclave/Manager.antt =====
-- src/enclave_proc/resource_manager.rs: `EnclaveManager`, an enclave behind a mutex. A lock fails
-- if the mutex is poisoned.
use aws_nitro_enclaves_cli.Common.{
  length, ℕ, ◌≡◌, Bool, false, Option, some, List, [], arith, if◌then◌else◌,
}
use Prim.Native.String.{String}
use aws_nitro_enclaves_cli.Common.Int.{ℤ}
use aws_nitro_enclaves_cli.Failure.{
  NitroCliErrorEnum, NitroCliResult, ok, err, exit, lock_acquire_failure,
}
use aws_nitro_enclaves_cli.Exec.{Exec, raise, gets, modify, ◌>>=◌, ◌>>◌}
use aws_nitro_enclaves_cli.Memory.Allocator.{ResourceAllocator, free_allocator}
use aws_nitro_enclaves_cli.Image.{EifFile}
use aws_nitro_enclaves_cli.Cpu.Config.{EnclaveCpuConfig}
use aws_nitro_enclaves_cli.Enclave.{
  Driver, EnclaveState, World, clear, release_enclave_descriptor, drop_allocator, drop_handle,
}
use aws_nitro_enclaves_cli.Enclave.Create.{new, create_enclave}

-- The manager, with the handle that its mutex guards and the system.
pub record Manager (D : Driver) : Type 0 where
  pub enclave_id : List ℕ
  pub enclave_name : String
  pub poisoned : Bool
  pub world : World D

module _ (D : Driver) where
  -- `self.enclave_handle.lock()`, then `body` on what it guards.
  abbrev pub locked {ℓ} : {A : Type ℓ} → Exec (World D) A → Exec (Manager D) A
  locked body m =
      if m.poisoned
      then (err lock_acquire_failure, m)
      else let (result, w) = body m.world in (result, record m { world = w })

  abbrev pub on_system {ℓ} :
      {A : Type ℓ} → (D.State → NitroCliResult A × D.State) → Exec (Manager D) A
  on_system f m =
      let (result, k) = f m.world.sys in (result, record m { world = record m.world { sys = k } })

  -- `EnclaveManager::new`
  unfoldable pub new_manager :
      Option ℕ → ℕ → EnclaveCpuConfig → EifFile → Bool → String → Exec D.State (Manager D)
  new_manager enclave_cid memory_mib cpu_ids eif_file debug_mode enclave_name k =
      let (result, k') = new D enclave_cid memory_mib cpu_ids eif_file debug_mode k in
      elim result [
        | ok handle ↦ (
          ok (record {
            enclave_id = [];
            enclave_name = enclave_name;
            poisoned = false;
            world = record { handle = handle; sys = k' };
          }),
          k',
        )
        | err e ↦ (err e, k')
        | exit e ↦ (exit e, k')
      ]

  unfoldable pub run_enclave : Bool → Exec (Manager D) (Unit {0})
  run_enclave connected = do
    id ← locked (create_enclave D connected)
    modify (λ m. record m { enclave_id = id })

  unfoldable pub set_measurements : List (String × String) → Exec (Manager D) (Unit {0})
  set_measurements measurements =
      locked (modify (λ w. record w { handle = record w.handle { build_info = measurements } }))

  unfoldable pub set_metadata : D.Metadata → Exec (Manager D) (Unit {0})
  set_metadata metadata =
      locked (modify (λ w. record w { handle = record w.handle { metadata = some metadata } }))

  -- `enclave_cid.unwrap()`: the caller panics on `none`.
  unfoldable pub get_console_resources_enclave_cid : Exec (Manager D) (Option ℕ)
  get_console_resources_enclave_cid = locked (gets (λ w. w.handle.enclave_cid))

  unfoldable pub get_console_resources_enclave_flags : Exec (Manager D) ℕ
  get_console_resources_enclave_flags = locked (gets (λ w. w.handle.flags))

  -- The slot, the CID (unwrapped as above), the CPUs with their number, the memory, the flags and
  -- the state.
  unfoldable pub get_description_resources :
      Exec (Manager D) (ℕ × Option ℕ × ℕ × List ℕ × ℕ × ℕ × EnclaveState)
  get_description_resources = locked (
      gets (λ w. (
        w.handle.slot_uid,
        w.handle.enclave_cid,
        length w.handle.cpu_ids,
        w.handle.cpu_ids,
        w.handle.allocated_memory_mib,
        w.handle.flags,
        w.handle.state,
      )))

  unfoldable pub get_measurements : Exec (Manager D) (List (String × String))
  get_measurements = locked (gets (λ w. w.handle.build_info))

  unfoldable pub get_metadata : Exec (Manager D) (Option D.Metadata)
  get_metadata = locked (gets (λ w. w.handle.metadata))

  unfoldable pub get_termination_resources : Exec (Manager D) (ℤ × ResourceAllocator)
  get_termination_resources = locked (gets (λ w. (w.handle.enc_fd, w.handle.resource_allocator)))

  unfoldable pub get_enclave_descriptor : Exec (Manager D) ℤ
  get_enclave_descriptor = locked (gets (λ w. w.handle.enc_fd))

  unfoldable pub update_state : EnclaveState → Exec (Manager D) (Unit {0})
  update_state state =
      locked (modify (λ w. record w { handle = record w.handle { state = state } }))

  -- A failure drops the clone of the allocator, which frees what the clone still holds.
  abbrev drop_clone : NitroCliErrorEnum → ResourceAllocator → Exec (Manager D) (Unit {0})
  drop_clone e clone = do on_system (drop_allocator D clone); raise e

  abbrev freed :
      NitroCliResult (Unit {0}) × ResourceAllocator × D.State → Exec (Manager D) (Unit {0})
  freed (ok _, clone, k) m = (ok tt, record m { world = record m.world { sys = k } })
  freed (err e, clone, k) m = drop_clone e clone (record m { world = record m.world { sys = k } })
  freed (exit e, clone, k) m = (exit e, record m { world = record m.world { sys = k } })

  abbrev released :
      ResourceAllocator → NitroCliResult (Unit {0}) × D.State → Exec (Manager D) (Unit {0})
  released clone (ok _, k) m =
      freed (free_allocator D.kernel clone k) (record m { world = record m.world { sys = k } })
  released clone (err e, k) m = drop_clone e clone (record m { world = record m.world { sys = k } })
  released clone (exit e, k) m = (exit e, record m { world = record m.world { sys = k } })

  -- `terminate_enclave`: the memory is freed through a clone of the allocator, with the mutex free.
  unfoldable pub terminate_enclave : Exec (Manager D) (Unit {0})
  unfolding get_termination_resources
  terminate_enclave = do
    resources ← get_termination_resources
    (λ m. released resources.1 (release_enclave_descriptor D resources.0 m.world.sys) m)
    locked (modify (λ w. record w { handle = clear w.handle }))

module _ (D : Driver) (m : Manager D) where
  pub terminate_enclave_frees_twice :
      (terminate_enclave D m).0 ≡ ok tt
      → ((terminate_enclave D m).1.world.handle.resource_allocator
          ≡ m.world.handle.resource_allocator)
        × ((terminate_enclave D m).1.world.handle.enclave_cid ≡ some 0)
        × (drop_handle D (terminate_enclave D m).1.world
            ≡ drop_allocator D m.world.handle.resource_allocator
                (terminate_enclave D m).1.world.sys)
  unfolding terminate_enclave clear drop_handle
  terminate_enclave_frees_twice h = ground arith
