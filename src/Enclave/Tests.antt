-- ===== src/Enclave/Tests.antt =====
-- Enclaves on a machine with a few free pages of 2 MiB, whose driver grants all that it is asked.
use aws_nitro_enclaves_cli.Common.{
  ℕ, suc, ◌+◌, ◌*◌, ◌/◌, ◌^◌, ◌≤◌, ◌≡◌, ◌≢◌, ◌==◌, if◌then◌else◌, refl, true, false, Option, none,
  some, List, [], ◌∷◌, arith, replicate,
}
use aws_nitro_enclaves_cli.Common.Int.{ℤ, pos, negsuc, ◌-ℤ◌}
use aws_nitro_enclaves_cli.Failure.{ok}
use aws_nitro_enclaves_cli.Memory.{MemoryRegion, mib, page_size, huge_page_map, new, free}
use aws_nitro_enclaves_cli.Memory.Sort.{total, sort}
use aws_nitro_enclaves_cli.Memory.Allocator.{
  next, map_pages, map_each, map_all, fits, remains, split_index, drop_regions, trim, allocate,
  free_regions, free_allocator,
}
use aws_nitro_enclaves_cli.Memory.Allocator.Cover.{IsFit}
use aws_nitro_enclaves_cli.Memory.Tests.{small_machine}
use aws_nitro_enclaves_cli.Image.{read_exact, fill_from_file, write_regions, write_eif_to_regions}
use aws_nitro_enclaves_cli.Cpu.Config.{list, count}
use aws_nitro_enclaves_cli.EifLoader.{vsock_timeout_error, heart_beat, enclave_ready}
use aws_nitro_enclaves_cli.EnclaveId.{absent}
use aws_nitro_enclaves_cli.Enclave.{
  Driver, EnclaveHandle, EnclaveState, World, clear, release_enclave_descriptor, free_memory,
  terminate_enclave, drop_handle,
}
use aws_nitro_enclaves_cli.Enclave.Create.{
  allocate_memory, write_eif, set_regions, load_image, init_memory, init_single_cpu, init_listed,
  init_counted, init_cpus, start, create_enclave,
}
use aws_nitro_enclaves_cli.Enclave.Terminate.{drop_handle-terminate_enclave}
use aws_nitro_enclaves_cli.Enclave.Unready.{NeverReady, started, create_enclave-late}
use aws_nitro_enclaves_cli.Enclave.Vcpus.{AddsVcpu, Added, init_cpus-ok}
use aws_nitro_enclaves_cli.Enclave.Manager.{Manager, update_state}
use aws_nitro_enclaves_cli.Enclave.Resources.{init_memory-ok}

-- The heart beat comes or not, and a descriptor can be closed or not. Of a region, the first eight
-- bytes are looked at.
abbrev driver_of : Option ℕ → ℤ → Driver
driver_of poll closed = record {
  Metadata = Unit;
  kernel = small_machine;
  open_device = λ k. (true, k);
  create_vm = λ k. (pos 7, 1, k);
  get_image_load_info = λ fd k. (pos 0, 2, k);
  set_user_memory_region = λ fd r k. (pos 0, k);
  add_vcpu = λ fd id k. (pos 0, id, k);
  start_enclave = λ fd flags cid k. (pos 0, 16, k);
  close = λ fd k. (closed, k);
  bytes_of = λ r k. replicate 8 0;
  store = λ r bytes k. k;
  bind_ready = λ k. (true, k);
  wait_ready = λ timeout k.
      (record { poll = poll; accepts = true; read = some (1, heart_beat); writes = true }, k);
  notify = λ k. (ok tt, k);
  board_tag = λ k. (absent, k);
}

abbrev good_driver : Driver
good_driver = driver_of (some 1) (pos 0)

abbrev handle_of : Option ℕ → List MemoryRegion → EnclaveHandle Unit
handle_of cid regions = record {
  cpu_config = list (2 ∷ 3 ∷ []);
  cpu_ids = [];
  allocated_memory_mib = 0;
  slot_uid = 1;
  enclave_cid = cid;
  flags = 0;
  enc_fd = pos 7;
  resource_allocator = record { requested_mem = 3 * mib; mem_regions = regions };
  eif_file = some (record {
    content = 1 ∷ 2 ∷ 3 ∷ [];
    position = 0;
    metadata_ok = true;
    rewind_ok = true;
    fault = λ p. none;
  });
  state = EnclaveState.empty;
  build_info = [];
  metadata = none;
}

abbrev world_of :
    (poll : Option ℕ) (closed : ℤ) → Option ℕ → List MemoryRegion → World (driver_of poll closed)
world_of poll closed cid regions = record { handle = handle_of cid regions; sys = 5 }

abbrev one_page : List MemoryRegion
one_page = record { flags = 0; mem_size = 2 * mib; mem_addr = 4 * mib } ∷ []

abbrev new_world : World good_driver
new_world = world_of (some 1) (pos 0) none []

abbrev running_world : World good_driver
running_world = world_of (some 1) (pos 0) (some 16) one_page

init_memory-ok_example :
    IsFit (3 * mib) (init_memory good_driver true new_world).1.handle.resource_allocator.mem_regions
    × ((init_memory good_driver true new_world).1.handle.allocated_memory_mib
        ≡ total (init_memory good_driver true new_world).1.handle.resource_allocator.mem_regions
          / 2 ^ 20)
    × (3 ≤ (init_memory good_driver true new_world).1.handle.allocated_memory_mib)
unfolding init_memory load_image set_regions write_eif write_eif_to_regions write_regions
    fill_from_file read_exact allocate_memory allocate trim map_all map_each map_pages next new
    page_size huge_page_map fits remains sort split_index drop_regions ◌-ℤ◌ total
init_memory-ok_example = init_memory-ok good_driver true new_world refl (omega arith) refl

-- For ID 0, this driver chooses a CPU behind the first two.
abbrev choosing_driver : Driver
choosing_driver = record good_driver {
  add_vcpu = λ fd id k. (pos 0, (if id == 0 then 2 + k else id), suc k);
}

abbrev counted_world : World choosing_driver
counted_world = record { handle = record (handle_of none []) { cpu_config = count 2 }; sys = 5 }

choosing_driver-AddsVcpu : AddsVcpu (λ id. 2 ≤ id) choosing_driver
choosing_driver-AddsVcpu fd id k done = ((λ named. ground arith), (λ chosen. ground arith))

init_cpus-ok_example :
    Added (λ id. 2 ≤ id) (count 2) [] (init_cpus choosing_driver counted_world).1.handle.cpu_ids
unfolding init_cpus init_counted init_single_cpu
init_cpus-ok_example =
    init_cpus-ok (λ id. 2 ≤ id) choosing_driver choosing_driver-AddsVcpu counted_world tt refl

drop_handle-terminate_enclave_example :
    drop_handle good_driver (terminate_enclave good_driver running_world).1
    ≡ (ok tt, (terminate_enclave good_driver running_world).1.sys)
unfolding terminate_enclave release_enclave_descriptor free_memory free_allocator free_regions free
    clear
drop_handle-terminate_enclave_example =
    drop_handle-terminate_enclave good_driver running_world (λ h. ground arith) refl

-- The wait for the heart beat times out.
abbrev late_driver : Driver
late_driver = driver_of (some 0) (pos 0)

abbrev late_world : World late_driver
late_world = world_of (some 0) (pos 0) none []

late_driver-NeverReady : NeverReady late_driver
unfolding enclave_ready
late_driver-NeverReady timeout k = (vsock_timeout_error, refl)

create_enclave-late_example :
    ((id : List ℕ) → (create_enclave late_driver true late_world).0 ≢ ok id)
    × ((create_enclave late_driver true late_world).1.handle
        ≡ (started late_driver true late_world).1.handle)
    × IsFit
        (3 * mib)
        (create_enclave late_driver true late_world).1.handle.resource_allocator.mem_regions
    × (terminate_enclave late_driver (create_enclave late_driver true late_world).1
        ≡ (ok tt, (create_enclave late_driver true late_world).1))
unfolding init_memory load_image set_regions write_eif write_eif_to_regions write_regions
    fill_from_file read_exact allocate_memory allocate trim map_all map_each map_pages next new
    page_size huge_page_map fits remains sort split_index drop_regions ◌-ℤ◌ total init_cpus
    init_listed init_single_cpu start
create_enclave-late_example =
    create_enclave-late late_driver true 16 late_world late_driver-NeverReady refl (omega arith)
      refl refl

abbrev manager : Manager good_driver
manager = record { enclave_id = []; enclave_name = "app"; poisoned = false; world = running_world }

abbrev bad_driver : Driver
bad_driver = driver_of (some 1) (negsuc 0)

abbrev bad_manager : Manager bad_driver
bad_manager = record {
  enclave_id = [];
  enclave_name = "app";
  poisoned = false;
  world = world_of (some 1) (negsuc 0) (some 16) one_page;
}
