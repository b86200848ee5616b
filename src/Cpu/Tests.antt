-- ===== src/Cpu/Tests.antt =====
-- CPU pools and configurations of small machines.
use aws_nitro_enclaves_cli.Common.{◌≡◌, ◌↔◌, false, none, some, [], ◌∷◌, arith}
use aws_nitro_enclaves_cli.Failure.{ok}
use aws_nitro_enclaves_cli.Args.{RunEnclavesArgs}
use aws_nitro_enclaves_cli.Cpu.Pool.{
  single, range, count_up, print_line, parse_cpu_pool_line, parse_cpu_pool_line-print_line,
}
use aws_nitro_enclaves_cli.Cpu.Config.{CpuInfo, list, get_cpu_config, IsConfig, get_cpu_config_iff}

abbrev four_cpus : CpuInfo
four_cpus = record { cpu_ids = 1 ∷ 2 ∷ 5 ∷ 6 ∷ [] }

abbrev two_wanted : RunEnclavesArgs
two_wanted = record {
  eif_path = "image.eif";
  enclave_cid = none;
  memory_mib = 64;
  cpu_ids = some (2 ∷ 5 ∷ []);
  debug_mode = false;
  attach_console = false;
  cpu_count = none;
  enclave_name = none;
}

get_cpu_config_iff_example :
    (get_cpu_config four_cpus two_wanted ≡ ok (list (2 ∷ 5 ∷ [])))
    ↔ IsConfig four_cpus two_wanted (list (2 ∷ 5 ∷ []))
get_cpu_config_iff_example = get_cpu_config_iff four_cpus two_wanted (list (2 ∷ 5 ∷ []))

-- The line is "1-3,12".
parse_cpu_pool_line-print_line_example :
    parse_cpu_pool_line (print_line (range 1 3) (single 12 ∷ [])) ≡ ok (1 ∷ 2 ∷ 3 ∷ 12 ∷ [])
unfolding count_up
parse_cpu_pool_line-print_line_example =
    parse_cpu_pool_line-print_line (range 1 3) (single 12 ∷ [])
      ((omega arith, omega arith), (omega arith, tt))
