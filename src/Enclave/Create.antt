-- ===== src/Enclave/Create.antt =====
-- src/enclave_proc/resource_manager.rs: the creation of an enclave, `EnclaveHandle::new` and
-- `create_enclave` with its parts.
use aws_nitro_enclaves_cli.Common.{
  ℕ, zero, suc, ◌*◌, ◌/◌, ◌%◌, ◌^◌, Bool, Option, none, some, List, [], ◌∷◌, ◌++◌, map, ltb,
  if◌then◌else◌, length,
}
use aws_nitro_enclaves_cli.Common.Int.{ℤ, pos, ltb_ℤ}
use aws_nitro_enclaves_cli.Failure.{
  NitroCliResult, ok, err, exit, file_operation_failure, invalid_enclave_fd,
  insufficient_memory_requested, insufficient_memory_available, enclave_boot_failure,
}
use aws_nitro_enclaves_cli.Exec.{Exec, pure, raise, lift, gets, modify, ◌>>=◌, ◌>>◌}
use aws_nitro_enclaves_cli.Memory.{MemoryRegion}
use aws_nitro_enclaves_cli.Memory.Sort.{total}
use aws_nitro_enclaves_cli.Memory.Allocator.{ResourceAllocator, new_allocator, allocate}
use aws_nitro_enclaves_cli.Image.{EifFile, Mapping, write_eif_to_regions}
use aws_nitro_enclaves_cli.Cpu.Config.{EnclaveCpuConfig, list, count}
use aws_nitro_enclaves_cli.EifLoader.{EifLoaderError, enclave_ready, calculate_necessary_timeout}
use aws_nitro_enclaves_cli.EnclaveId.{generate_enclave_id}
use aws_nitro_enclaves_cli.Enclave.{
  Driver, EnclaveHandle, EnclaveState, World, cid_or_zero, do_ioctl_with, sys_call, say,
  terminate_enclave_and_notify,
}

abbrev pub enclave_memory_eif_size_ratio : ℕ
enclave_memory_eif_size_ratio = 4

abbrev pub ne_enclave_debug_mode : ℕ
ne_enclave_debug_mode = 1

-- `memory_mib << 20` on 64 bits
abbrev pub requested_bytes : ℕ → ℕ
requested_bytes memory_mib = memory_mib * 2 ^ 20 % 2 ^ 64

module _ (D : Driver) where
  -- The handle of an enclave for which the driver answered `rc` and `slot_uid`.
  abbrev opened :
      Option ℕ
      → EnclaveCpuConfig
      → EifFile
      → Bool
      → ℤ
      → ℕ
      → ResourceAllocator
      → EnclaveHandle D.Metadata
  opened enclave_cid cpu_config eif_file debug_mode rc slot_uid allocator = record {
    cpu_config = cpu_config;
    cpu_ids = [];
    allocated_memory_mib = 0;
    slot_uid = slot_uid;
    enclave_cid = enclave_cid;
    flags = if debug_mode then ne_enclave_debug_mode else 0;
    enc_fd = rc;
    resource_allocator = allocator;
    eif_file = some eif_file;
    state = EnclaveState.empty;
    build_info = [];
    metadata = none;
  }

  -- `ENCLAVE_MEMORY_EIF_SIZE_RATIO * eif_size > requested_mem`, on 64 bits.
  abbrev check_memory : ℕ → ℕ → NitroCliResult (Unit {0})
  check_memory eif_size requested_mem =
      if ltb requested_mem (enclave_memory_eif_size_ratio * eif_size % 2 ^ 64)
      then err insufficient_memory_requested
      else ok tt

  abbrev pub file_size : EifFile → NitroCliResult ℕ
  file_size file = if file.metadata_ok then ok (length file.content) else err file_operation_failure

  abbrev check_fd : ℤ → NitroCliResult (Unit {0})
  check_fd enc_fd = if ltb_ℤ enc_fd (pos 0) then err invalid_enclave_fd else ok tt

  abbrev open_device : Exec D.State (Unit {0})
  open_device k =
      let (opens, k') = D.open_device k in (if opens then ok tt else err file_operation_failure, k')

  abbrev create_vm : Exec D.State (ℤ × ℕ)
  create_vm k = let (rc, slot_uid, k') = D.create_vm k in (do_ioctl_with rc (rc, slot_uid), k')

  -- `EnclaveHandle::new`
  unfoldable pub new :
      Option ℕ → ℕ → EnclaveCpuConfig → EifFile → Bool → Exec D.State (EnclaveHandle D.Metadata)
  new enclave_cid memory_mib cpu_config eif_file debug_mode = do
    let requested_mem = requested_bytes memory_mib
    eif_size ← lift (file_size eif_file)
    lift (check_memory eif_size requested_mem)
    open_device
    vm ← create_vm
    lift (check_fd vm.0)
    allocator ← lift (new_allocator requested_mem)
    pure (opened enclave_cid cpu_config eif_file debug_mode vm.0 vm.1 allocator)

  -- `self.resource_allocator.allocate()`
  unfoldable pub allocate_memory : Exec (World D) (List MemoryRegion)
  allocate_memory w =
      let (result, a, k) = allocate D.kernel w.handle.resource_allocator w.sys in
      let w' : World D = record { handle = record w.handle { resource_allocator = a }; sys = k } in
      elim result [ ok _ ↦ (ok a.mem_regions, w') | err e ↦ (err e, w') | exit e ↦ (exit e, w') ]

  abbrev pub require_file : Option EifFile → NitroCliResult EifFile
  require_file none = err file_operation_failure
  require_file (some file) = ok file

  store_all : List Mapping → D.State → D.State
  store_all [] k = k
  store_all (m ∷ ms) k = store_all ms (D.store m.region m.bytes k)

  -- `write_eif_to_regions` on the memory of the system.
  unfoldable pub write_eif : EifFile → List MemoryRegion → ℕ → Exec (World D) (Unit {0})
  unfolding store_all
  write_eif eif_file regions memory_offset w =
      let mappings = map (λ r. record { region = r; bytes = D.bytes_of r w.sys }) regions in
      let (result, mappings', file) = write_eif_to_regions eif_file mappings memory_offset in
      (
        result,
        record {
          handle = record w.handle { eif_file = some file };
          sys = store_all mappings' w.sys;
        },
      )

  abbrev set_region : ℤ → MemoryRegion → Exec (World D) (Unit {0})
  set_region enc_fd r =
      sys_call D
        (λ k. let (rc, k') = D.set_user_memory_region enc_fd r k in (do_ioctl_with rc tt, k'))

  -- Each region is given to the driver.
  unfoldable pub set_regions : ℤ → List MemoryRegion → Exec (World D) (Unit {0})
  set_regions enc_fd [] = pure tt
  set_regions enc_fd (r ∷ rs) = do set_region enc_fd r; set_regions enc_fd rs

  abbrev pub check_allocated : ℕ → ℕ → NitroCliResult (Unit {0})
  check_allocated allocated requested =
      if ltb allocated requested then err insufficient_memory_available else ok tt

  -- The second half of `init_memory`: the image is loaded, and the driver is given the regions.
  unfoldable pub load_image : List MemoryRegion → Exec (World D) (Unit {0})
  load_image regions = do
    given ← gets (λ w. w.handle.eif_file)
    eif_file ← lift (require_file given)
    enc_fd ← gets (λ w. w.handle.enc_fd)
    memory_offset ← sys_call D (λ k.
        let (rc, offset, k') = D.get_image_load_info enc_fd k in (do_ioctl_with rc offset, k'))
    write_eif eif_file regions memory_offset
    set_regions enc_fd regions

  unfoldable pub init_memory : Bool → Exec (World D) (Unit {0})
  init_memory connected = do
    say D connected
    requested_mem_mib ← gets (λ w. w.handle.resource_allocator.requested_mem / 2 ^ 20)
    regions ← allocate_memory
    let allocated = total regions / 2 ^ 20
    modify (λ w. record w { handle = record w.handle { allocated_memory_mib = allocated } })
    lift (check_allocated allocated requested_mem_mib)
    load_image regions

  unfoldable pub init_single_cpu : ℕ → Exec (World D) (Unit {0})
  init_single_cpu cpu_id = do
    enc_fd ← gets (λ w. w.handle.enc_fd)
    added ←
        sys_call D (λ k. let (rc, id, k') = D.add_vcpu enc_fd cpu_id k in (do_ioctl_with rc id, k'))
    modify (λ w. record w { handle = record w.handle { cpu_ids = w.handle.cpu_ids ++ added ∷ [] } })

  unfoldable pub init_listed : List ℕ → Exec (World D) (Unit {0})
  init_listed [] = pure tt
  init_listed (cpu_id ∷ cpu_ids) = do init_single_cpu cpu_id; init_listed cpu_ids

  unfoldable pub init_counted : ℕ → Exec (World D) (Unit {0})
  init_counted zero = pure tt
  init_counted (suc cpu_count) = do init_single_cpu 0; init_counted cpu_count

  abbrev pub init_config : EnclaveCpuConfig → Exec (World D) (Unit {0})
  init_config (list cpu_ids) = init_listed cpu_ids
  init_config (count cpu_count) = init_counted cpu_count

  unfoldable pub init_cpus : Exec (World D) (Unit {0})
  init_cpus = do cpu_config ← gets (λ w. w.handle.cpu_config); init_config cpu_config

  -- `start`; the result is the CID in the answer of the driver.
  unfoldable pub start : Bool → Exec (World D) ℕ
  start connected = do
    h ← gets (λ w. w.handle)
    enclave_cid ← sys_call D (λ k.
        let (rc, cid, k') = D.start_enclave h.enc_fd h.flags (cid_or_zero h.enclave_cid) k in
        (do_ioctl_with rc cid, k'))
    say D connected
    pure enclave_cid

  abbrev pub bind_ready : Exec (World D) (Unit {0})
  bind_ready = sys_call D (λ k.
      let (bound, k') = D.bind_ready k in (if bound then ok tt else err enclave_boot_failure, k'))

  -- `terminate_enclave_error`, then the error of the caller.
  abbrev boot_failed : Exec (World D) (Unit {0})
  boot_failed = do terminate_enclave_and_notify D; raise enclave_boot_failure

  abbrev after_wait : Option EifLoaderError → Exec (World D) (Unit {0})
  after_wait none = pure tt
  after_wait (some e) = boot_failed

  -- `enclave_ready`, with its error.
  unfoldable pub wait_ready : ℤ → Exec (World D) (Unit {0})
  wait_ready poll_timeout = do
    answers ← sys_call D (λ k. let (a, k') = D.wait_ready poll_timeout k in (ok a, k'))
    after_wait (enclave_ready answers)

  -- `get_run_enclaves_info`, of which the ID is used.
  abbrev pub run_info : ℕ → Exec (World D) (List ℕ)
  run_info slot_uid =
      sys_call D (λ k. let (tag, k') = D.board_tag k in (generate_enclave_id tag slot_uid, k'))

  unfoldable pub create_enclave : Bool → Exec (World D) (List ℕ)
  create_enclave connected = do
    init_memory connected
    init_cpus
    bind_ready
    enclave_cid ← start connected
    given ← gets (λ w. w.handle.eif_file)
    eif_file ← lift (require_file given)
    eif_size ← lift (file_size eif_file)
    wait_ready (calculate_necessary_timeout eif_size)
    modify (λ w. record w { handle = record w.handle { enclave_cid = some enclave_cid } })
    slot_uid ← gets (λ w. w.handle.slot_uid)
    enclave_id ← run_info slot_uid
    say D connected
    pure enclave_id
