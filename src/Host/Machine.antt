-- ===== src/Host/Machine.antt =====
-- A process of user 1000 on a system that grants all that it is asked.
use aws_nitro_enclaves_cli.Common.{ℕ, ◌*◌, Bool, true, false, none, some, [], ◌∷◌, replicate}
use aws_nitro_enclaves_cli.Common.Int.{pos}
use aws_nitro_enclaves_cli.Failure.{ok}
use aws_nitro_enclaves_cli.Wire.{Codec}
use aws_nitro_enclaves_cli.Memory.{Kernel, mib}
use aws_nitro_enclaves_cli.Image.{EifFile}
use aws_nitro_enclaves_cli.Cpu.Config.{list}
use aws_nitro_enclaves_cli.EifLoader.{heart_beat}
use aws_nitro_enclaves_cli.EnclaveId.{absent}
use aws_nitro_enclaves_cli.Connection.Stream.{Connection}
use aws_nitro_enclaves_cli.Connection.Tests.{
  owner, status_codec, command_codec, stream_of, connection_of,
}
use aws_nitro_enclaves_cli.Enclave.{Driver, EnclaveState}
use aws_nitro_enclaves_cli.Enclave.Manager.{Manager}
use aws_nitro_enclaves_cli.Host.{Host}
use aws_nitro_enclaves_cli.Listener.{ConnectionListener}

-- The connection of the request, and whether the file of the socket is there.
pub record Machine : Type 0 where
  pub request : Connection
  pub socket_there : Bool

abbrev pub kernel_of : Kernel
kernel_of = record {
  State = Machine;
  map_huge = λ n. n;
  mmap = λ k size flag. (some size, k);
  munmap = λ k addr size. (true, k);
}

abbrev pub driver_of : Driver
driver_of = record {
  Metadata = Unit;
  kernel = kernel_of;
  open_device = λ k. (true, k);
  create_vm = λ k. (pos 7, 1, k);
  get_image_load_info = λ fd k. (pos 0, 2, k);
  set_user_memory_region = λ fd r k. (pos 0, k);
  add_vcpu = λ fd id k. (pos 0, id, k);
  start_enclave = λ fd flags cid k. (pos 0, 16, k);
  close = λ fd k. (pos 0, k);
  bytes_of = λ r k. replicate 8 0;
  store = λ r bytes k. k;
  bind_ready = λ k. (true, k);
  wait_ready = λ timeout k.
      (record { poll = some 1; accepts = true; read = some (1, heart_beat); writes = true }, k);
  notify = λ k. (ok tt, k);
  board_tag = λ k. (absent, k);
}

abbrev pub image : EifFile
image = record {
  content = 1 ∷ 2 ∷ 3 ∷ [];
  position = 0;
  metadata_ok = true;
  rewind_ok = true;
  fault = λ p. none;
}

abbrev pub no_codec : {A : Type 0} → Codec A
no_codec = record { to_vec = λ a. none; from_slice = λ bytes. none }

abbrev pub host : Host
host = record {
  driver = driver_of;
  connection = λ k. k.request;
  set_connection = λ c k. record k { request = c };
  open_eif = λ path k. some image;
  -- "2-3"
  open_pool = λ k. some (some (b'2' ∷ b'-' ∷ b'3' ∷ []) ∷ []);
  from_eif = λ path k. some (record { is_empty = false; verifies = true });
  read_eif = λ path k. some (record { pcrs = some []; metadata = none });
  img_name = λ m. "image";
  img_version = λ m. "1";
  Value = ℕ;
  build_time = λ m. "noon";
  build_tool = λ m. "nitro-cli";
  build_tool_version = λ m. "1.2";
  img_os = λ m. "Linux";
  img_kernel = λ m. "4.14";
  docker_info = λ m. 7;
  custom_info = λ m. 8;
  uid = 1000;
  pid = 5;
  commands = command_codec;
  run_args = no_codec;
  names = no_codec;
  describe_args = no_codec;
  replies = status_codec;
  print_describe = λ info. none;
  print_name = λ name. none;
  print_id = λ id. none;
  encodes_termination = true;
  construct_error_message = λ e. [];
  update_logger_id = λ id k. (true, k);
  mask_all = λ k. (true, k);
  epoll_create = λ k. (true, k);
  epoll_add = λ k. (true, k);
  epoll_del = λ fd k. (true, k);
  socket_file = λ name. name;
  bind = λ path k. (true, record k { socket_there = true });
  start_monitoring = λ path k. (ok tt, k);
  connect = λ path k. some (stream_of [] (some owner));
  exists = λ path k. k.socket_there;
  remove_file = λ path k. (true, record k { socket_there = false });
  stream_pair = λ k. some (stream_of [] (some owner));
}

abbrev pub machine : Machine
machine = record { request = connection_of (stream_of [] (some owner)); socket_there = true }

abbrev pub manager : Manager driver_of
manager = record {
  enclave_id = b'i' ∷ [];
  enclave_name = "enclave";
  poisoned = false;
  world = record {
    handle = record {
      cpu_config = list (2 ∷ 3 ∷ []);
      cpu_ids = 2 ∷ 3 ∷ [];
      allocated_memory_mib = 4;
      slot_uid = 1;
      enclave_cid = some 16;
      flags = 0;
      enc_fd = pos 7;
      resource_allocator = record { requested_mem = 3 * mib; mem_regions = [] };
      eif_file = some image;
      state = EnclaveState.running;
      build_info = [];
      metadata = none;
    };
    sys = machine;
  };
}

abbrev pub listener : ConnectionListener
listener = record {
  running = true;
  socket = record { socket_path = b's' ∷ []; requested_remove = false };
}
