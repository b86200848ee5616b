-- ===== src/Args/Accepted.antt =====
-- Which arguments of `run-enclave` are accepted, and with what values.
use aws_nitro_enclaves_cli.Common.{
  ℕ, ◌-◌, ◌*◌, ◌^◌, ◌≤◌, ◌<◌, ◌≡◌, refl, ◌≢◌, ◌↔◌, ◌⊎◌, true, none, some, List, [], ◌∷◌, ◌++◌,
  arith, All,
}
use aws_nitro_enclaves_cli.Failure.{ok}
use aws_nitro_enclaves_cli.Text.{
  IsDigit, parse_u64, to_string, parse_number-to_string, to_string-All,
}
use aws_nitro_enclaves_cli.Args.{RunEnclavesArgs}
use aws_nitro_enclaves_cli.Args.Parse.{
  ArgMatches, ConfigFile, MemoryUnit, to_mebibytes, from_str, split_number, parse_memory,
  parse_enclave_cid, from_matches, new_with,
}

-- A CID on the command line is accepted exactly if it is a 64-bit number that is 0, for a CID of the
-- driver's choice, or lies from 4 to 2 ^ 32 - 2: no CID of the host, of the parent or of any.
pub parse_enclave_cid_iff :
    (args : ArgMatches) (text : List ℕ) (cid : ℕ)
    → args.enclave_cid ≡ some text
    → (parse_enclave_cid args ≡ ok (some cid))
      ↔ ((parse_u64 text ≡ some cid) × ((cid ≡ 0) ⊎ (4 ≤ cid) × (cid < 2 ^ 32 - 1)))
unfolding parse_enclave_cid
parse_enclave_cid_iff args text cid given = ground arith

split_number-digits :
    (number size : List ℕ)
    → All IsDigit number
    → split_number size ≡ ([], size)
    → split_number (number ++ size) ≡ (number, size)
unfolding split_number
split_number-digits [] size h e = e
split_number-digits (c ∷ cs) size h e = ground (arith, split_number-digits cs size h.1 e)

split_number-unit :
    (size : List ℕ) (unit : MemoryUnit) → from_str size ≡ some unit → split_number size ≡ ([], size)
unfolding split_number from_str
split_number-unit [] unit h = refl
split_number-unit (c ∷ []) unit h = ground arith
split_number-unit (c ∷ d ∷ cs) unit h = absurd (ground arith)

-- A printed number of 64 bits in front of a unit is that many units of memory, in MiB, if these fit
-- 64 bits.
parse_memory-to_string :
    (args : ArgMatches) (n : ℕ) (size : List ℕ) (unit : MemoryUnit)
    → args.memory ≡ some (to_string n ++ size)
    → from_str size ≡ some unit
    → n < 2 ^ 64
    → n * to_mebibytes unit < 2 ^ 64
    → parse_memory args ≡ ok (n * to_mebibytes unit)
unfolding parse_memory
parse_memory-to_string args n size unit given known small fits =
    rw
      (
        given,
        split_number-digits (to_string n) size (to_string-All n)
            (split_number-unit size unit known),
        parse_number-to_string (2 ^ 64) n small,
        known,
      )
      (ground arith)

-- Arguments that are accepted ask for the debug mode if they ask for the console, whether they stand
-- on the command line or in a file.
pub new_with-attach_console :
    (args : ArgMatches) (run_args : RunEnclavesArgs)
    → new_with args ≡ ok run_args
    → run_args.attach_console ≡ true
    → run_args.debug_mode ≡ true
unfolding new_with from_matches
new_with-attach_console args run_args h console = ground arith

-- Arguments that are accepted from a configuration file have a count of CPUs or a list of CPU IDs,
-- and not both.
new_with-config :
    (args : ArgMatches) (file : ConfigFile) (run_args : RunEnclavesArgs)
    → args.config ≡ some file
    → new_with args ≡ ok run_args
    → (run_args.cpu_count ≡ none) × (run_args.cpu_ids ≢ none)
      ⊎ (run_args.cpu_count ≢ none) × (run_args.cpu_ids ≡ none)
unfolding new_with
new_with-config args file run_args given h = ground arith
