-- ===== src/Args/Tests.antt =====
-- Arguments of a request for 2 GiB with the CID 16.
use aws_nitro_enclaves_cli.Common.{
  ℕ, ◌≤◌, ◌<◌, ◌-◌, ◌^◌, ◌≡◌, refl, ◌↔◌, ◌⊎◌, true, false, none, some, [], ◌∷◌, ◌++◌,
}
use aws_nitro_enclaves_cli.Failure.{ok}
use aws_nitro_enclaves_cli.Text.{parse_u64, to_string}
use aws_nitro_enclaves_cli.Args.{RunEnclavesArgs}
use aws_nitro_enclaves_cli.Args.Parse.{ArgMatches, json, parse_enclave_cid}
use aws_nitro_enclaves_cli.Args.Accepted.{parse_enclave_cid_iff}

abbrev in_file : RunEnclavesArgs
in_file = record {
  eif_path = "image.eif";
  enclave_cid = none;
  memory_mib = 2048;
  cpu_ids = some (2 ∷ 3 ∷ []);
  debug_mode = true;
  attach_console = true;
  cpu_count = none;
  enclave_name = none;
}

abbrev matches : ArgMatches
matches = record {
  config = some (json (record in_file { debug_mode = false }));
  memory = some (to_string 2 ++ b'G' ∷ []);
  enclave_cid = some (b'1' ∷ b'6' ∷ []);
  cpu_ids = none;
  cpu_count = none;
  eif_path = some "image.eif";
  enclave_name = none;
  debug_mode = false;
  attach_console = false;
}

abbrev cid : ℕ
cid = 16

parse_enclave_cid_iff_example :
    (parse_enclave_cid matches ≡ ok (some cid))
    ↔ ((parse_u64 (b'1' ∷ b'6' ∷ []) ≡ some cid) × ((cid ≡ 0) ⊎ (4 ≤ cid) × (cid < 2 ^ 32 - 1)))
parse_enclave_cid_iff_example = parse_enclave_cid_iff matches (b'1' ∷ b'6' ∷ []) cid refl
