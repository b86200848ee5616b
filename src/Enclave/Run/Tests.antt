-- ===== src/Enclave/Run/Tests.antt =====
-- A request to run an enclave, and the description of one that runs.
use aws_nitro_enclaves_cli.Common.{
  ℕ, suc, ◌+◌, ◌*◌, ◌^◌, ◌<◌, ◌≤◌, ◌≡◌, refl, ◌≢◌, ◌⊎◌, ◌↔◌, ◌%◌, inl, inr, Bool, true, false,
  Option, none, some, List, [], ◌∷◌, ◌++◌, arith, length, replicate, if◌then◌else◌,
}
use aws_nitro_enclaves_cli.Common.Int.{ℤ, pos, negsuc}
use aws_nitro_enclaves_cli.Failure.{NitroCliResult, ok, err, exit, socket_error}
use aws_nitro_enclaves_cli.Args.{RunEnclavesArgs}
use aws_nitro_enclaves_cli.Memory.{Kernel, MemoryRegion, mib}
use aws_nitro_enclaves_cli.Image.{EifFile}
use aws_nitro_enclaves_cli.Cpu.Config.{list}
use aws_nitro_enclaves_cli.EifLoader.{heart_beat}
use aws_nitro_enclaves_cli.EnclaveId.{
  BoardTag, absent, no_tag, enc, generate_enclave_id, get_slot_id,
}
use aws_nitro_enclaves_cli.Enclave.{Driver, EnclaveHandle, EnclaveState, World}
use aws_nitro_enclaves_cli.Enclave.Manager.{
  Manager, get_description_resources, get_metadata, get_measurements, get_enclave_descriptor,
}
use aws_nitro_enclaves_cli.Enclave.Run.{DescribeThreadResult, run_enclaves}
use aws_nitro_enclaves_cli.Enclave.Run.Signed.{IsTrusted, run_enclaves-ok}
use aws_nitro_enclaves_cli.Enclave.Describe.{
  flags_to_string, state_to_string, new_metadata, get_enclave_describe_info,
}
use aws_nitro_enclaves_cli.Enclave.Told.{debug_mode_text, TellsImage, get_enclave_describe_info-ok}
use aws_nitro_enclaves_cli.Host.{EnclaveDescribeInfo}
use aws_nitro_enclaves_cli.Host.Machine.{driver_of, host, machine, manager}

abbrev known : Manager driver_of
known = record manager {
  world = record manager.world {
    handle = record manager.world.handle { metadata = some tt; flags = 1 };
  };
}

abbrev info : EnclaveDescribeInfo ℕ
info = record {
  enclave_name = some "enclave";
  enclave_id = no_tag ++ enc ++ b'1' ∷ [];
  process_id = 5;
  enclave_cid = 16;
  cpu_count = 2;
  cpu_ids = 2 ∷ 3 ∷ [];
  memory_mib = 4;
  state = state_to_string EnclaveState.running;
  flags = debug_mode_text;
  build_info = some [];
  img_name = some "image";
  img_version = some "1";
  metadata = some record {
    build_time = "noon";
    build_tool = "nitro-cli";
    tool_version = "1.2";
    operating_system = "Linux";
    kernel_version = "4.14";
    docker_info = 7;
    custom_metadata = 8;
  };
}

get_enclave_describe_info-ok_example :
    (get_slot_id info.enclave_id ≡ some 1)
    × (known.world.handle.enclave_cid ≡ some info.enclave_cid)
    × (info.cpu_ids ≡ known.world.handle.cpu_ids)
    × (info.cpu_count ≡ length info.cpu_ids)
    × (info.memory_mib ≡ known.world.handle.allocated_memory_mib)
    × (info.state ≡ state_to_string known.world.handle.state)
    × (info.build_info ≡ some known.world.handle.build_info)
    × ((info.flags ≡ debug_mode_text) ↔ (known.world.handle.flags % 2 ≡ 1))
    × TellsImage host true known.world.handle.metadata info
    × ((get_enclave_describe_info host true known).1.world.handle ≡ known.world.handle)
unfolding get_enclave_describe_info get_description_resources get_metadata generate_enclave_id
    get_measurements flags_to_string new_metadata
get_enclave_describe_info-ok_example =
    get_enclave_describe_info-ok host true known info (omega arith) tt refl

abbrev args : RunEnclavesArgs
args = record {
  eif_path = "image.eif";
  enclave_cid = none;
  memory_mib = 4;
  cpu_ids = some (2 ∷ 3 ∷ []);
  debug_mode = false;
  attach_console = false;
  cpu_count = none;
  enclave_name = some "enclave";
}

abbrev ok_or : {A : Type 0} → A → NitroCliResult A → A
ok_or a (ok b) = b
ok_or a (err e) = a
ok_or a (exit e) = a

abbrev ran : Manager driver_of × NitroCliResult (DescribeThreadResult Unit)
ran = ok_or (manager, err socket_error) (run_enclaves host args machine).0

run_enclaves-ok_example :
    IsTrusted host args.eif_path
    × (args.enclave_name ≡ some ran.0.enclave_name)
    × (ran.0.world.handle.state ≡ EnclaveState.running)
unfolding run_enclaves aws_nitro_enclaves_cli.Enclave.Run.prepare
    aws_nitro_enclaves_cli.Cpu.Pool.get_cpu_info aws_nitro_enclaves_cli.Text.is_blank
    aws_nitro_enclaves_cli.Cpu.Pool.parse_cpu_pool_line
    aws_nitro_enclaves_cli.Cpu.Pool.parse_intervals aws_nitro_enclaves_cli.Text.split
    aws_nitro_enclaves_cli.Cpu.Pool.parse_bounds aws_nitro_enclaves_cli.Cpu.Pool.get_value
    aws_nitro_enclaves_cli.Text.parse_number aws_nitro_enclaves_cli.Text.strip
    aws_nitro_enclaves_cli.Cpu.Config.get_cpu_config aws_nitro_enclaves_cli.Cpu.Config.check_cpu_ids
    aws_nitro_enclaves_cli.Cpu.UniqueIds.insert_all aws_nitro_enclaves_cli.Cpu.UniqueIds.set_insert
    aws_nitro_enclaves_cli.Cpu.UniqueIds.contains aws_nitro_enclaves_cli.Cpu.UniqueIds.place
    aws_nitro_enclaves_cli.Cpu.Config.check_available aws_nitro_enclaves_cli.Common.Int.◌-ℤ◌
    aws_nitro_enclaves_cli.Cpu.Pool.count_up
    aws_nitro_enclaves_cli.EifLoader.calculate_necessary_timeout
    aws_nitro_enclaves_cli.EifLoader.enclave_ready
    aws_nitro_enclaves_cli.Enclave.Create.allocate_memory
    aws_nitro_enclaves_cli.Enclave.Create.create_enclave
    aws_nitro_enclaves_cli.Enclave.Create.init_counted
    aws_nitro_enclaves_cli.Enclave.Create.init_cpus
    aws_nitro_enclaves_cli.Enclave.Create.init_listed
    aws_nitro_enclaves_cli.Enclave.Create.init_memory
    aws_nitro_enclaves_cli.Enclave.Create.init_single_cpu
    aws_nitro_enclaves_cli.Enclave.Create.load_image aws_nitro_enclaves_cli.Enclave.Create.new
    aws_nitro_enclaves_cli.Enclave.Create.set_regions aws_nitro_enclaves_cli.Enclave.Create.start
    aws_nitro_enclaves_cli.Enclave.Create.wait_ready aws_nitro_enclaves_cli.Enclave.Create.write_eif
    aws_nitro_enclaves_cli.Enclave.Manager.new_manager
    aws_nitro_enclaves_cli.Enclave.Manager.run_enclave
    aws_nitro_enclaves_cli.Enclave.Manager.update_state aws_nitro_enclaves_cli.Enclave.Run.measure
    aws_nitro_enclaves_cli.Enclave.Run.run_with_manager aws_nitro_enclaves_cli.Enclave.clear
    aws_nitro_enclaves_cli.Enclave.drop_allocator aws_nitro_enclaves_cli.Enclave.drop_handle
    aws_nitro_enclaves_cli.Enclave.free_memory
    aws_nitro_enclaves_cli.Enclave.release_enclave_descriptor
    aws_nitro_enclaves_cli.Enclave.terminate_enclave
    aws_nitro_enclaves_cli.Enclave.terminate_enclave_and_notify generate_enclave_id
    aws_nitro_enclaves_cli.EnclaveId.show_hex aws_nitro_enclaves_cli.EnclaveId.to_hex
    aws_nitro_enclaves_cli.Image.fill_from_file aws_nitro_enclaves_cli.Image.read_exact
    aws_nitro_enclaves_cli.Image.write_at aws_nitro_enclaves_cli.Image.write_eif_to_regions
    aws_nitro_enclaves_cli.Image.write_regions aws_nitro_enclaves_cli.Memory.Allocator.allocate
    aws_nitro_enclaves_cli.Memory.Allocator.drop_regions
    aws_nitro_enclaves_cli.Memory.Allocator.fits
    aws_nitro_enclaves_cli.Memory.Allocator.free_allocator
    aws_nitro_enclaves_cli.Memory.Allocator.free_regions
    aws_nitro_enclaves_cli.Memory.Allocator.map_all aws_nitro_enclaves_cli.Memory.Allocator.map_each
    aws_nitro_enclaves_cli.Memory.Allocator.map_pages
    aws_nitro_enclaves_cli.Memory.Allocator.new_allocator
    aws_nitro_enclaves_cli.Memory.Allocator.next aws_nitro_enclaves_cli.Memory.Allocator.remains
    aws_nitro_enclaves_cli.Memory.Allocator.split_index aws_nitro_enclaves_cli.Memory.Allocator.trim
    aws_nitro_enclaves_cli.Memory.Sort.insert aws_nitro_enclaves_cli.Memory.Sort.sort
    aws_nitro_enclaves_cli.Memory.Sort.total aws_nitro_enclaves_cli.Memory.drop_region
    aws_nitro_enclaves_cli.Memory.free aws_nitro_enclaves_cli.Memory.huge_page_map
    aws_nitro_enclaves_cli.Memory.new aws_nitro_enclaves_cli.Memory.page_size
    aws_nitro_enclaves_cli.Text.is_whitespace aws_nitro_enclaves_cli.Text.parse_digits
run_enclaves-ok_example = run_enclaves-ok host args machine ran.0 ran.1 refl
