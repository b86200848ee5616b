-- ===== src/Host.antt =====
-- What an enclave process calls besides the driver: its files, its sockets, `epoll`, and the
-- libraries for images and JSON.
pub mod Machine
use aws_nitro_enclaves_cli.Common.{ℕ, Bool, Option, List}
use Prim.Native.String.{String}
use aws_nitro_enclaves_cli.Common.Int.{ℤ}
use aws_nitro_enclaves_cli.Failure.{NitroCliErrorEnum, NitroCliResult}
use aws_nitro_enclaves_cli.Command.{EnclaveProcessCommandType}
use aws_nitro_enclaves_cli.Wire.{Codec}
use aws_nitro_enclaves_cli.Args.{RunEnclavesArgs}
use aws_nitro_enclaves_cli.Image.{EifFile}
use aws_nitro_enclaves_cli.Connection.Stream.{Connection, EnclaveProcessReply, Stream}
use aws_nitro_enclaves_cli.Enclave.{Driver}

-- src/common/json_output.rs, for the values of the JSON library.
pub record MetadataDescribeInfo (Value : Type 0) : Type 0 where
  pub build_time : String
  pub build_tool : String
  pub tool_version : String
  pub operating_system : String
  pub kernel_version : String
  pub docker_info : Value
  pub custom_metadata : Value

pub record EnclaveDescribeInfo (Value : Type 0) : Type 0 where
  pub enclave_name : Option String
  pub enclave_id : List ℕ
  pub process_id : ℕ
  pub enclave_cid : ℕ
  pub cpu_count : ℕ
  pub cpu_ids : List ℕ
  pub memory_mib : ℕ
  pub state : List ℕ
  pub flags : List ℕ
  pub build_info : Option (List (String × String))
  pub img_name : Option String
  pub img_version : Option String
  pub metadata : Option (MetadataDescribeInfo Value)

-- What the image library reads for the measurements: them and the metadata. `none` stands for a
-- failure of the library.
pub record EifRead (Metadata : Type 0) : Type 0 where
  pub pcrs : Option (List (String × String))
  pub metadata : Option Metadata

-- What the library finds of a signature.
pub record SignatureChecker : Type 0 where
  pub is_empty : Bool
  pub verifies : Bool

pub record Host : Type 1 where
  pub driver : Driver
  pub open driver use *
  -- the connection of the request that is handled, on which `notify` writes
  pub connection : State → Connection
  pub set_connection : Connection → State → State
  -- the files of a request to run, and the library for images
  pub open_eif : String → State → Option EifFile
  pub open_pool : State → Option (List (Option (List ℕ)))
  pub from_eif : String → State → Option SignatureChecker
  pub read_eif : String → State → Option (EifRead Metadata)
  pub img_name : Metadata → String
  pub img_version : Metadata → String
  -- the other fields of `EifIdentityInfo` and of its `build_info`, with `serde_json::Value`
  pub Value : Type 0
  pub build_time : Metadata → String
  pub build_tool : Metadata → String
  pub build_tool_version : Metadata → String
  pub img_os : Metadata → String
  pub img_kernel : Metadata → String
  pub docker_info : Metadata → Value
  pub custom_info : Metadata → Value
  -- the user and the number of the process, and the encodings of the messages
  pub uid : ℕ
  pub pid : ℕ
  pub commands : Codec EnclaveProcessCommandType
  pub run_args : Codec RunEnclavesArgs
  pub names : Codec String
  pub describe_args : Codec Bool
  pub replies : Codec EnclaveProcessReply
  -- the JSON library and the text of an error
  pub print_describe : EnclaveDescribeInfo Value → Option (List ℕ)
  pub print_name : String → Option (List ℕ)
  pub print_id : List ℕ → Option (List ℕ)
  pub encodes_termination : Bool
  pub construct_error_message : NitroCliErrorEnum → List ℕ
  -- the logger, `epoll` and the sockets
  pub update_logger_id : List ℕ → State → Bool × State
  pub mask_all : State → Bool × State
  pub epoll_create : State → Bool × State
  pub epoll_add : State → Bool × State
  pub epoll_del : ℤ → State → Bool × State
  -- the directory of the sockets with a file name, and the extension `sock`
  pub socket_file : List ℕ → List ℕ
  pub bind : List ℕ → State → Bool × State
  pub start_monitoring : List ℕ → State → NitroCliResult (Unit {0}) × State
  pub connect : List ℕ → State → Option Stream
  pub exists : List ℕ → State → Bool
  pub remove_file : List ℕ → State → Bool × State
  pub stream_pair : State → Option Stream
