-- ===== src/Args/Others.antt =====
-- src/common/commands_parser.rs: the arguments of the commands other than `run-enclave`, from the answers of
-- the library that reads the command line. Texts are lists of code points.
use aws_nitro_enclaves_cli.Common.{ℕ, ◌≡◌, ◌↔◌, Bool, Option, none, some, List, arith}
use aws_nitro_enclaves_cli.Failure.{
  NitroCliErrorEnum, NitroCliResult, ok, err, ◌>>=◌, ◌>>◌, missing_argument, invalid_argument,
}
use aws_nitro_enclaves_cli.Text.{parse_u64}

-- The answers for the arguments of a command.
pub record CommandMatches : Type 0 where
  pub docker_uri : Option (List ℕ)
  pub docker_dir : Option (List ℕ)
  pub output_file : Option (List ℕ)
  pub signing_certificate : Option (List ℕ)
  pub private_key : Option (List ℕ)
  pub image_name : Option (List ℕ)
  pub image_version : Option (List ℕ)
  pub metadata : Option (List ℕ)
  pub has_metadata : Bool
  pub enclave_name : Option (List ℕ)
  pub enclave_id : Option (List ℕ)
  pub disconnect_timeout : Option (List ℕ)
  pub error_code : Option (List ℕ)
  pub input : Option (List ℕ)

abbrev pub ok_or {ℓ} : {A : Type ℓ} → NitroCliErrorEnum → Option A → NitroCliResult A
ok_or e none = err e
ok_or e (some a) = ok a

pub record BuildEnclavesArgs : Type 0 where
  pub docker_uri : List ℕ
  pub docker_dir : Option (List ℕ)
  pub output : List ℕ
  pub signing_certificate : Option (List ℕ)
  pub private_key : Option (List ℕ)
  pub img_name : Option (List ℕ)
  pub img_version : Option (List ℕ)
  pub metadata : Option (List ℕ)

-- The match on the certificate and the key.
abbrev both_or_neither : Option (List ℕ) → Option (List ℕ) → NitroCliResult (Unit {0})
both_or_neither (some certificate) none = err missing_argument
both_or_neither none (some key) = err missing_argument
both_or_neither _ _ = ok tt

-- `BuildEnclavesArgs::new_with`
unfoldable pub build_args : CommandMatches → NitroCliResult BuildEnclavesArgs
build_args args = do
  both_or_neither args.signing_certificate args.private_key
  docker_uri ← ok_or missing_argument args.docker_uri
  output ← ok_or missing_argument args.output_file
  ok record {
    docker_uri = docker_uri;
    docker_dir = args.docker_dir;
    output = output;
    signing_certificate = args.signing_certificate;
    private_key = args.private_key;
    img_name = args.image_name;
    img_version = args.image_version;
    metadata = args.metadata;
  }

unfoldable pub parse_enclave_id : CommandMatches → NitroCliResult (List ℕ)
parse_enclave_id args = ok_or missing_argument args.enclave_id

abbrev parse_timeout : Option (List ℕ) → NitroCliResult (Option ℕ)
parse_timeout none = ok none
parse_timeout (some text) = do seconds ← ok_or invalid_argument (parse_u64 text); ok (some seconds)

unfoldable pub parse_disconnect_timeout : CommandMatches → NitroCliResult (Option ℕ)
parse_disconnect_timeout args = parse_timeout args.disconnect_timeout

-- The question to the enclave processes for the ID of a name.
module _ (get_id_by_name : List ℕ → NitroCliResult (List ℕ)) where
  -- A name goes before an ID.
  abbrev id_of : Option (List ℕ) → NitroCliResult (List ℕ) → NitroCliResult (List ℕ)
  id_of (some name) id = get_id_by_name name
  id_of none id = id

  -- `TerminateEnclavesArgs::new_with`, the ID of the enclave
  unfoldable pub terminate_args : CommandMatches → NitroCliResult (List ℕ)
  terminate_args args = id_of args.enclave_name (parse_enclave_id args)

  -- `ConsoleArgs::new_with`, the ID of the enclave and the seconds of the timeout
  unfoldable pub console_args : CommandMatches → NitroCliResult (List ℕ × Option ℕ)
  console_args args = do
    enclave_id ← id_of args.enclave_name (parse_enclave_id args)
    disconnect_timeout_sec ← parse_disconnect_timeout args
    ok (enclave_id, disconnect_timeout_sec)

-- `DescribeEnclavesArgs::new_with`, the field `metadata`
unfoldable pub describe_args : CommandMatches → Bool
describe_args args = args.has_metadata

-- `ExplainArgs::new_with`, the field `error_code_str`
unfoldable pub explain_args : CommandMatches → NitroCliResult (List ℕ)
explain_args args = ok_or missing_argument args.error_code

pub data PcrType : Type 0 where
  signing_certificate_type default_type : PcrType

abbrev pcr_input : Option (List ℕ) → Option (List ℕ) → NitroCliResult (List ℕ × PcrType)
pcr_input (some path) input = ok (path, signing_certificate_type)
pcr_input none input = do path ← ok_or missing_argument input; ok (path, default_type)

-- `PcrArgs::new_with`, with `parse_file_path`. The argument for a certificate takes a value.
unfoldable pub pcr_args : CommandMatches → NitroCliResult (List ℕ × PcrType)
pcr_args args = pcr_input args.signing_certificate args.input

both_or_neither_iff :
    (certificate key : Option (List ℕ))
    → (both_or_neither certificate key ≡ ok tt) ↔ ((certificate ≡ none) ↔ (key ≡ none))
both_or_neither_iff none none = ground arith
both_or_neither_iff none (some key) = ground arith
both_or_neither_iff (some certificate) none = ground arith
both_or_neither_iff (some certificate) (some key) = ground arith

-- The arguments of a build are accepted exactly if the image and the output are named and the certificate
-- and the key are named both or neither; what is accepted is what was named.
build_args_iff :
    (args : CommandMatches) (built : BuildEnclavesArgs)
    → (build_args args ≡ ok built) ↔ (
        (args.docker_uri ≡ some built.docker_uri)
        × (args.output_file ≡ some built.output)
        × ((built.signing_certificate ≡ none) ↔ (built.private_key ≡ none))
        × (args.docker_dir ≡ built.docker_dir)
        × (args.signing_certificate ≡ built.signing_certificate)
        × (args.private_key ≡ built.private_key)
        × (args.image_name ≡ built.img_name)
        × (args.image_version ≡ built.img_version)
        × (args.metadata ≡ built.metadata))
unfolding build_args
build_args_iff args built =
    ground (arith, both_or_neither_iff args.signing_certificate args.private_key)
