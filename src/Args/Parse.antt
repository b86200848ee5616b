-- ===== src/Args/Parse.antt =====
-- src/common/commands_parser.rs: the arguments of `run-enclave`, from the answers of the library
-- that reads the command line, or from a configuration file.
use aws_nitro_enclaves_cli.Common.{
  ℕ, ◌-◌, ◌*◌, ◌%◌, ◌^◌, Bool, ◌&&◌, ◌||◌, Option, none, some, List, [], ◌∷◌, ltb, leb, ◌==◌,
  if◌then◌else◌,
}
use Prim.Native.String.{String}
use aws_nitro_enclaves_cli.Failure.{
  NitroCliErrorEnum, NitroCliResult, ok, err, ◌>>=◌, missing_argument, conflicting_argument,
  invalid_argument, file_operation_failure, serde_error,
}
use aws_nitro_enclaves_cli.Text.{is_digit, parse_u32, parse_u64}
use aws_nitro_enclaves_cli.Args.{RunEnclavesArgs}

abbrev pub vmaddr_cid_host : ℕ
vmaddr_cid_host = 2

abbrev pub vmaddr_cid_parent : ℕ
vmaddr_cid_parent = 3

-- A configuration file, as the system and the JSON library read it.
pub data ConfigFile : Type 0 where
  cannot_open malformed : ConfigFile
  json : RunEnclavesArgs → ConfigFile

-- The answers for the arguments of the command.
pub record ArgMatches : Type 0 where
  pub config : Option ConfigFile
  pub memory : Option (List ℕ)
  pub enclave_cid : Option (List ℕ)
  pub cpu_ids : Option (List (List ℕ))
  pub cpu_count : Option (List ℕ)
  pub eif_path : Option String
  pub enclave_name : Option String
  pub debug_mode : Bool
  pub attach_console : Bool

abbrev ok_or {ℓ} : {A : Type ℓ} → NitroCliErrorEnum → Option A → NitroCliResult A
ok_or e none = err e
ok_or e (some a) = ok a

pub data MemoryUnit : Type 0 where
  mebibytes gibibytes tebibytes : MemoryUnit

abbrev pub to_mebibytes : MemoryUnit → ℕ
to_mebibytes mebibytes = 1
to_mebibytes gibibytes = 1024
to_mebibytes tebibytes = 1024 * 1024

-- `MemoryUnit::from_str`
unfoldable pub from_str : List ℕ → Option MemoryUnit
from_str [] = some mebibytes
from_str (c ∷ []) =
    if c == b'M' || c == b'm'
    then some mebibytes
    else if c == b'G' || c == b'g'
    then some gibibytes
    else if c == b'T' || c == b't'
    then some tebibytes
    else none
from_str _ = none

-- `split_at` the first character that is not numeric. A numeric character beyond the digits of
-- ASCII would stand in the first half, where it is no part of a number; here it stands in the second,
-- where it is no unit: the error is the same.
unfoldable pub split_number : List ℕ → List ℕ × List ℕ
split_number [] = ([], [])
split_number (c ∷ cs) =
    let (number, size) = split_number cs in if is_digit c then (c ∷ number, size) else ([], c ∷ cs)

-- The product wraps around, as in a build without overflow checks.
abbrev memory_of : List ℕ × List ℕ → NitroCliResult ℕ
memory_of (num_str, size_str) = do
  num ← ok_or invalid_argument (parse_u64 num_str)
  unit ← ok_or invalid_argument (from_str size_str)
  ok (num * to_mebibytes unit % 2 ^ 64)

unfoldable pub parse_memory : ArgMatches → NitroCliResult ℕ
unfolding split_number from_str
parse_memory args = do memory ← ok_or missing_argument args.memory; memory_of (split_number memory)

abbrev check_cid : ℕ → NitroCliResult (Option ℕ)
check_cid cid =
    if ltb 0 cid && leb cid vmaddr_cid_host
    then err invalid_argument
    else if cid == 2 ^ 32 - 1
    then err invalid_argument
    else if cid == vmaddr_cid_parent
    then err invalid_argument
    else if ltb (2 ^ 32 - 1) cid
    then err invalid_argument
    else ok (some cid)

abbrev cid_of : Option (List ℕ) → NitroCliResult (Option ℕ)
cid_of none = ok none
cid_of (some enclave_cid) = do cid ← ok_or invalid_argument (parse_u64 enclave_cid); check_cid cid

unfoldable pub parse_enclave_cid : ArgMatches → NitroCliResult (Option ℕ)
parse_enclave_cid args = cid_of args.enclave_cid

unfoldable pub parse_ids : List (List ℕ) → NitroCliResult (List ℕ)
parse_ids [] = ok []
parse_ids (cpu_id ∷ cpu_ids) = do
  id ← ok_or invalid_argument (parse_u32 cpu_id)
  ids ← parse_ids cpu_ids
  ok (id ∷ ids)

abbrev ids_of : Option (List (List ℕ)) → NitroCliResult (Option (List ℕ))
ids_of none = ok none
ids_of (some cpu_ids) = do ids ← parse_ids cpu_ids; ok (some ids)

unfoldable pub parse_cpu_ids : ArgMatches → NitroCliResult (Option (List ℕ))
unfolding parse_ids
parse_cpu_ids args = ids_of args.cpu_ids

abbrev count_of : Option (List ℕ) → NitroCliResult (Option ℕ)
count_of none = ok none
count_of (some cpu_count) = do n ← ok_or invalid_argument (parse_u32 cpu_count); ok (some n)

unfoldable pub parse_cpu_count : ArgMatches → NitroCliResult (Option ℕ)
parse_cpu_count args = count_of args.cpu_count

-- The checks of a configuration file.
abbrev check_json : RunEnclavesArgs → Option ℕ → Option (List ℕ) → NitroCliResult RunEnclavesArgs
check_json args none none = err missing_argument
check_json args (some cpu_count) (some cpu_ids) = err conflicting_argument
check_json args _ _ = ok (record args { debug_mode = args.debug_mode || args.attach_console })

abbrev from_file : ConfigFile → NitroCliResult RunEnclavesArgs
from_file cannot_open = err file_operation_failure
from_file malformed = err serde_error
from_file (json args) = check_json args args.cpu_count args.cpu_ids

unfoldable pub from_matches : ArgMatches → NitroCliResult RunEnclavesArgs
from_matches args = do
  cpu_count ← parse_cpu_count args
  eif_path ← ok_or missing_argument args.eif_path
  enclave_cid ← parse_enclave_cid args
  memory_mib ← parse_memory args
  cpu_ids ← parse_cpu_ids args
  ok (record {
    eif_path = eif_path;
    enclave_cid = enclave_cid;
    memory_mib = memory_mib;
    cpu_ids = cpu_ids;
    debug_mode = args.debug_mode || args.attach_console;
    attach_console = args.attach_console;
    cpu_count = cpu_count;
    enclave_name = args.enclave_name;
  })

abbrev chosen : ArgMatches → Option ConfigFile → NitroCliResult RunEnclavesArgs
chosen args (some file) = from_file file
chosen args none = from_matches args

-- `RunEnclavesArgs::new_with`
unfoldable pub new_with : ArgMatches → NitroCliResult RunEnclavesArgs
new_with args = chosen args args.config
