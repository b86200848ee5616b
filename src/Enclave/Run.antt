-- ===== src/Enclave/Run.antt =====
-- src/enclave_proc/commands.rs: `run_enclaves`, up to the start of the thread that measures the
-- image, whose result is kept.
pub mod Signed
mod Tests
use aws_nitro_enclaves_cli.Common.{
  ℕ, Bool, true, false, Option, none, some, List, [], ◌∷◌, if◌then◌else◌,
}
use Prim.Native.String.{String}
use aws_nitro_enclaves_cli.Failure.{
  NitroCliErrorEnum, NitroCliResult, ok, err, exit, file_operation_failure,
  eif_signature_checker_error, eif_parsing_error,
}
use aws_nitro_enclaves_cli.Exec.{Exec, pure, raise, lift, gets, continue, ◌>>=◌, ◌>>◌}
use aws_nitro_enclaves_cli.Wire.{or_raise}
use aws_nitro_enclaves_cli.Cpu.Config.{EnclaveCpuConfig, get_cpu_config}
use aws_nitro_enclaves_cli.Cpu.Pool.{get_cpu_info}
use aws_nitro_enclaves_cli.Args.{RunEnclavesArgs}
use aws_nitro_enclaves_cli.Enclave.{Driver, EnclaveState, drop_handle}
use aws_nitro_enclaves_cli.Enclave.Manager.{Manager, new_manager, run_enclave, update_state}
use aws_nitro_enclaves_cli.Host.{Host, EifRead, SignatureChecker}

pub record DescribeThreadResult (Metadata : Type 0) : Type 0 where
  pub measurements : List (String × String)
  pub metadata : Option Metadata

module _ (H : Host) where
  abbrev measured :
      Option H.Metadata
      → Option (List (String × String))
      → NitroCliResult (DescribeThreadResult H.Metadata)
  measured metadata none = err eif_parsing_error
  measured metadata (some m) = ok (record { measurements = m; metadata = metadata })

  -- The body of the thread.
  unfoldable pub measure :
      Option (EifRead H.Metadata) → NitroCliResult (DescribeThreadResult H.Metadata)
  measure none = err eif_parsing_error
  measure (some eif_reader) = measured eif_reader.metadata eif_reader.pcrs

  abbrev check_signature : Option SignatureChecker → NitroCliResult (Unit {0})
  check_signature none = err eif_signature_checker_error
  check_signature (some checker) =
      if checker.is_empty
      then ok tt
      else if checker.verifies
      then ok tt
      else err eif_signature_checker_error

  -- What is done with the manager once it is there. The thread reads the image while the enclave
  -- starts.
  unfoldable pub run_with_manager :
      String → Exec (Manager H.driver) (NitroCliResult (DescribeThreadResult H.Metadata))
  unfolding measure
  run_with_manager eif_path = do
    checker ← gets (λ m. H.from_eif eif_path m.world.sys)
    lift (check_signature checker)
    describe_thread ← gets (λ m. measure (H.read_eif eif_path m.world.sys))
    run_enclave H.driver true
    update_state H.driver EnclaveState.running
    pure describe_thread

  -- A manager that is not returned is dropped.
  abbrev pub return_manager :
      {A : Type 0}
      → NitroCliResult A × Manager H.driver
      → NitroCliResult (Manager H.driver × A) × H.State
  return_manager (ok a, m) = (ok (m, a), m.world.sys)
  return_manager (err e, m) = continue (drop_handle H.driver m.world) (λ _. raise e)
  return_manager (exit e, m) = (exit e, m.world.sys)

  -- The pool of the CPUs and the configuration.
  abbrev pub cpu_config : RunEnclavesArgs → Exec H.State EnclaveCpuConfig
  cpu_config args = do
    opened ← gets H.open_pool
    lines ← or_raise file_operation_failure opened
    pool ← lift (get_cpu_info [] lines)
    lift (get_cpu_config (record { cpu_ids = pool }) args)

  -- `run_enclaves` up to the manager.
  unfoldable pub prepare : RunEnclavesArgs → Exec H.State (Manager H.driver)
  prepare args = do
    opened ← gets (H.open_eif args.eif_path)
    eif_file ← or_raise file_operation_failure opened
    cpu_ids ← cpu_config args
    enclave_name ← or_raise file_operation_failure args.enclave_name
    new_manager H.driver args.enclave_cid args.memory_mib cpu_ids eif_file args.debug_mode
        enclave_name

  unfoldable pub run_enclaves :
      RunEnclavesArgs
      → Exec H.State (Manager H.driver × NitroCliResult (DescribeThreadResult H.Metadata))
  unfolding run_with_manager
  run_enclaves args = do
    manager ← prepare args
    (λ k. return_manager (
        run_with_manager args.eif_path
          (record manager { world = record manager.world { sys = k } })))
