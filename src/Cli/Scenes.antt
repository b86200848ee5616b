-- ===== src/Cli/Scenes.antt =====
-- A run of an enclave with its console, the console of a running one, and the arguments of a build.
use aws_nitro_enclaves_cli.Common.{
  ℕ, ◌≡◌, ◌≢◌, refl, ◌^◌, ◌<◌, Bool, true, false, Option, none, some, List, [], ◌∷◌, arith, length,
}
use Prim.Native.Nat.{bit_and}
use Prim.Native.String.{String}
use aws_nitro_enclaves_cli.Common.Int.{pos}
use aws_nitro_enclaves_cli.Failure.{NitroCliResult, ok, err, enclave_naming_error}
use aws_nitro_enclaves_cli.Command.{EnclaveProcessCommandType, run}
use aws_nitro_enclaves_cli.Text.{same_text, split, parse_number, parse_digits}
use aws_nitro_enclaves_cli.Wire.{
  Codec, enclave_proc_command_send_single, write_frame, write_u64_le, write_all, to_le_bytes,
  read_u64_le, read_exact, from_le_bytes, receive_from_stream,
}
use aws_nitro_enclaves_cli.Wire.RoundTrip.{IsFaithful, receive_both}
use aws_nitro_enclaves_cli.Connection.Stream.{Stream}
use aws_nitro_enclaves_cli.Connection.Tests.{status_codec, command_codec, one_byte_frame, stream_of}
use aws_nitro_enclaves_cli.Enclave.Create.{ne_enclave_debug_mode}
use aws_nitro_enclaves_cli.Args.{RunEnclavesArgs}
use aws_nitro_enclaves_cli.Args.Parse.{ArgMatches, json, new_with}
use aws_nitro_enclaves_cli.Args.Others.{
  CommandMatches, BuildEnclavesArgs, build_args, console_args, parse_enclave_id,
  parse_disconnect_timeout,
}
use aws_nitro_enclaves_cli.Comm.{Json}
use aws_nitro_enclaves_cli.Comm.Single.{
  enclave_proc_get_cid, enclave_proc_get_flags, enclave_proc_connect_to_single,
}
use aws_nitro_enclaves_cli.Cli.{get_all_enclave_names}
use aws_nitro_enclaves_cli.Cli.Names.{
  contains, is_eifs, last_of, next_name, trim_eif, new_enclave_name,
}
use aws_nitro_enclaves_cli.Comm.Output.{
  enclave_proc_handle_outputs, enclave_process_handle_all_replies, print_all,
  enclave_proc_handle_output, read_replies, allowed, enclave_proc_output, not_allowed,
  print_objects,
}
use aws_nitro_enclaves_cli.Cli.Console.{console_port}
use aws_nitro_enclaves_cli.Cli.Main.{
  Program, console_enclaves, console_command, first, run_command, with_name,
}
use aws_nitro_enclaves_cli.Cli.Attached.{console_command-debug}
use aws_nitro_enclaves_cli.Cli.Launched.{Attaches, run_command-ok}

abbrev nothing : CommandMatches
nothing = record {
  docker_uri = none;
  docker_dir = none;
  output_file = none;
  signing_certificate = none;
  private_key = none;
  image_name = none;
  image_version = none;
  metadata = none;
  has_metadata = false;
  enclave_name = none;
  enclave_id = none;
  disconnect_timeout = none;
  error_code = none;
  input = none;
}

abbrev build_matches : CommandMatches
build_matches = record nothing { docker_uri = some (b'd' ∷ []); output_file = some (b'o' ∷ []) }

abbrev built : BuildEnclavesArgs
built = record {
  docker_uri = b'd' ∷ [];
  docker_dir = none;
  output = b'o' ∷ [];
  signing_certificate = none;
  private_key = none;
  img_name = none;
  img_version = none;
  metadata = none;
}

built_is : build_args build_matches ≡ ok built
unfolding build_args
built_is = refl

-- A process that answers with a number of one byte, on eight bytes.
abbrev answering : ℕ → Stream
answering n = stream_of (n ∷ 0 ∷ 0 ∷ 0 ∷ 0 ∷ 0 ∷ 0 ∷ 0 ∷ []) none

abbrev console_matches : CommandMatches
console_matches = record nothing {
  enclave_id = some (b'i' ∷ []);
  disconnect_timeout = some (b'5' ∷ []);
}

abbrev no_names : List ℕ → NitroCliResult (List ℕ)
no_names name = err enclave_naming_error

abbrev quiet : ℕ → Option ℕ → NitroCliResult (Unit {0})
quiet port timeout = ok tt

abbrev started : Program
started = record { comm = none; attached = [] }

-- The process reports the CID 16 and the flags 1.
abbrev after_console : Program
after_console =
    (console_command quiet command_codec no_names (λ id. some (answering 16))
      (λ id. some (answering 1)) console_matches started).1

console_port_is : after_console.attached ≡ (10016, some 5) ∷ []
unfolding console_command console_args parse_enclave_id parse_disconnect_timeout parse_number
    parse_digits enclave_proc_get_cid enclave_proc_get_flags enclave_proc_connect_to_single
    enclave_proc_command_send_single write_frame write_u64_le write_all to_le_bytes read_u64_le
    read_exact from_le_bytes console_enclaves console_port
console_port_is = refl

attaches : after_console.attached ≢ []
attaches h = ground (arith, console_port_is, h)

console_command-debug_example :
    (enclave_id : List ℕ) × (timeout : Option ℕ) × (cid : ℕ) × (flags : ℕ) × (port : ℕ)
    × (console_args no_names console_matches ≡ ok (enclave_id, timeout))
    × (enclave_proc_get_cid command_codec (some (answering 16)) ≡ ok cid)
    × (enclave_proc_get_flags command_codec (some (answering 1)) ≡ ok flags)
    × (bit_and flags ne_enclave_debug_mode ≢ 0)
    × (console_port cid ≡ ok port)
    × (after_console.attached ≡ (port, timeout) ∷ [])
console_command-debug_example =
    console_command-debug quiet command_codec no_names (λ id. some (answering 16))
      (λ id. some (answering 1)) console_matches started attaches

-- The one request that is encoded: texts that are empty, and no CID or CPU named.
picked :
    String
    → Option ℕ
    → ℕ
    → Option (List ℕ)
    → Bool
    → Bool
    → Option ℕ
    → Option String
    → Option (List ℕ)
picked String.[] none mem none true true (some n) (some String.[]) = some (n ∷ mem ∷ [])
picked _ _ _ _ _ _ _ _ = none

abbrev request_of : ℕ → ℕ → Option String → RunEnclavesArgs
request_of cpus mem name = record {
  eif_path = "";
  enclave_cid = none;
  memory_mib = mem;
  cpu_ids = none;
  debug_mode = true;
  attach_console = true;
  cpu_count = some cpus;
  enclave_name = name;
}

abbrev request_from : List ℕ → Option RunEnclavesArgs
request_from (n ∷ mem ∷ []) = some (request_of n mem (some ""))
request_from _ = none

abbrev request_bytes : RunEnclavesArgs → Option (List ℕ)
request_bytes a =
    picked a.eif_path a.enclave_cid a.memory_mib a.cpu_ids a.debug_mode a.attach_console a.cpu_count
      a.enclave_name

abbrev request_codec : Codec RunEnclavesArgs
request_codec = record { to_vec = request_bytes; from_slice = request_from }

picked-request_from :
    (path : String) (cid : Option ℕ) (mem : ℕ) (ids : Option (List ℕ)) (debug console : Bool)
    (count : Option ℕ) (name : Option String) (bytes : List ℕ)
    → picked path cid mem ids debug console count name ≡ some bytes
    → (length bytes < 2 ^ 64)
      × (request_from bytes
          ≡ some record {
            eif_path = path;
            enclave_cid = cid;
            memory_mib = mem;
            cpu_ids = ids;
            debug_mode = debug;
            attach_console = console;
            cpu_count = count;
            enclave_name = name;
          })
unfolding picked
picked-request_from String.[] none mem none true true (some n) (some String.[]) bytes e =
    ground arith
picked-request_from (String.◌∷◌ c path) cid mem ids debug console count name bytes e =
    absurd (ground arith)
picked-request_from String.[] (some cid) mem ids debug console count name bytes e =
    absurd (ground arith)
picked-request_from String.[] none mem (some ids) debug console count name bytes e =
    absurd (ground arith)
picked-request_from String.[] none mem none false console count name bytes e = absurd (ground arith)
picked-request_from String.[] none mem none true false count name bytes e = absurd (ground arith)
picked-request_from String.[] none mem none true true none name bytes e = absurd (ground arith)
picked-request_from String.[] none mem none true true (some n) none bytes e = absurd (ground arith)
picked-request_from String.[] none mem none true true (some n) (some (String.◌∷◌ c name)) bytes e =
    absurd (ground arith)

request_codec-IsFaithful : IsFaithful request_codec
request_codec-IsFaithful = record {
  small = λ a bytes e.
      (picked-request_from a.eif_path a.enclave_cid a.memory_mib a.cpu_ids a.debug_mode
        a.attach_console a.cpu_count a.enclave_name bytes e).0;
  decodes = λ a bytes e.
      (picked-request_from a.eif_path a.enclave_cid a.memory_mib a.cpu_ids a.debug_mode
        a.attach_console a.cpu_count a.enclave_name bytes e).1;
}

abbrev run_only : EnclaveProcessCommandType → Option (List ℕ)
run_only run = some (0 ∷ [])
run_only _ = none

abbrev run_from : List ℕ → Option EnclaveProcessCommandType
run_from (b ∷ []) = some run
run_from _ = none

abbrev run_codec : Codec EnclaveProcessCommandType
run_codec = record { to_vec = run_only; from_slice = run_from }

run_codec-IsFaithful : IsFaithful run_codec
run_codec-IsFaithful = record {
  small = λ a bytes e. ground arith;
  decodes = λ a bytes e. ground arith;
}

-- The file of a request for two CPUs and 64 MiB, and a process that says that it runs with the CID 16.
abbrev run_matches : ArgMatches
run_matches = record {
  config = some (json (request_of 2 64 none));
  memory = none;
  enclave_cid = none;
  cpu_ids = none;
  cpu_count = none;
  eif_path = none;
  enclave_name = none;
  debug_mode = false;
  attach_console = false;
}

abbrev reports : Json ℕ
reports = record {
  from_str = λ text. some 16;
  print_vec = λ objects. some [];
  print_object = λ object. some [];
}

abbrev no_texts : Json (List ℕ)
no_texts = record {
  from_str = λ text. none;
  print_vec = λ objects. none;
  print_object = λ object. none;
}

abbrev new_process : Stream
new_process = stream_of (one_byte_frame 0) none

-- "n"
abbrev short : String → List ℕ
short text = b'n' ∷ []

abbrev shortest : List ℕ → String
shortest text = ""

abbrev after_run : NitroCliResult (Unit {0}) × Program
after_run =
    run_command quiet run_codec status_codec short shortest request_codec no_texts reports
      (λ cid. cid) run_matches (ok new_process) (ok []) started

runs : after_run.0 ≡ ok tt
unfolding run_command new_with new_enclave_name get_all_enclave_names enclave_proc_handle_outputs
    enclave_proc_command_send_single write_frame write_u64_le write_all to_le_bytes picked
    enclave_process_handle_all_replies print_all enclave_proc_handle_output read_replies
    receive_from_stream read_u64_le read_exact console_port console_enclaves contains is_eifs
    last_of next_name trim_eif allowed enclave_proc_output not_allowed print_objects same_text split
    from_le_bytes
runs = refl

run_command-ok_example :
    (args : RunEnclavesArgs) × (name : List ℕ) × (comm' : Stream) × (run_info : List ℕ)
    × (report : ℕ) × (new_with run_matches ≡ ok args)
    × (contains (get_all_enclave_names status_codec no_texts []) name ≡ false)
    × (after_run.1.comm ≡ some comm')
    × (receive_both run_codec request_codec comm'.sink.written
        ≡ (ok (run, run, with_name shortest args name), []))
    × (enclave_process_handle_all_replies status_codec reports (comm' ∷ []) 0 false (pos 0 ∷ [])
        ≡ ok run_info)
    × (first run_info ≡ some report)
    × Attaches quiet args report started after_run.1
run_command-ok_example =
    run_command-ok quiet run_codec status_codec short shortest request_codec no_texts reports
      (λ cid. cid) run_matches new_process [] started run_codec-IsFaithful request_codec-IsFaithful
      refl runs
