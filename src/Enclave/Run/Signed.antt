-- ===== src/Enclave/Run/Signed.antt =====
-- What a request to run an enclave that succeeds has checked and done.
use aws_nitro_enclaves_cli.Common.{
  ℕ, ◌≡◌, ap, ◌∙◌, sym, ◌⊎◌, Bool, true, Option, some, arith, Option-cases, inl, inr,
}
use Prim.Native.String.{String}
use aws_nitro_enclaves_cli.Failure.{NitroCliResult, ok, err, exit}
use aws_nitro_enclaves_cli.Exec.{continue-ok}
use aws_nitro_enclaves_cli.Image.{EifFile}
use aws_nitro_enclaves_cli.Cpu.Config.{EnclaveCpuConfig}
use aws_nitro_enclaves_cli.Args.{RunEnclavesArgs}
use aws_nitro_enclaves_cli.Enclave.{EnclaveState}
use aws_nitro_enclaves_cli.Enclave.Manager.{Manager, new_manager, run_enclave, update_state}
use aws_nitro_enclaves_cli.Enclave.Run.{
  DescribeThreadResult, prepare, run_with_manager, return_manager, run_enclaves,
}
use aws_nitro_enclaves_cli.Host.{Host, SignatureChecker}

module _ (H : Host) where
  -- The library has found, in some state of the system, that the image has no signature or a valid
  -- one.
  abbrev pub IsTrusted : String → Type 0
  IsTrusted eif_path =
      (k : H.State) × (checker : SignatureChecker) × (H.from_eif eif_path k ≡ some checker)
      × ((checker.is_empty ≡ true) ⊎ (checker.verifies ≡ true))

  run_with_manager-ok :
      (eif_path : String) (m : Manager H.driver)
      (d : NitroCliResult (DescribeThreadResult H.Metadata))
      → (run_with_manager H eif_path m).0 ≡ ok d
      → IsTrusted eif_path
        × ((run_with_manager H eif_path m).1.world.handle.state ≡ EnclaveState.running)
        × ((run_with_manager H eif_path m).1.enclave_name ≡ m.enclave_name)
  unfolding run_with_manager run_enclave update_state
  run_with_manager-ok eif_path m d h = elim (Option-cases (H.from_eif eif_path m.world.sys)) [
    | inl e ↦ absurd (ground arith)
    | inr (checker, e) ↦ ((m.world.sys, checker, e, ground arith), ground arith, ground arith)
  ]

  return_manager-ok :
      {A : Type 0} (r : NitroCliResult A × Manager H.driver) (m : Manager H.driver) (a : A)
      → (return_manager H r).0 ≡ ok (m, a)
      → (r.0 ≡ ok a) × (r.1 ≡ m)
  return_manager-ok (ok b, n) m a h = ground arith
  return_manager-ok (err e, n) m a h = grind arith
  return_manager-ok (exit e, n) m a h = ground arith

  new_manager-named :
      (enclave_cid : Option ℕ) (memory_mib : ℕ) (cpu_ids : EnclaveCpuConfig) (file : EifFile)
      (debug : Bool) (name : String) (k : H.State) (m : Manager H.driver)
      → (new_manager H.driver enclave_cid memory_mib cpu_ids file debug name k).0 ≡ ok m
      → m.enclave_name ≡ name
  unfolding new_manager
  new_manager-named cid memory_mib cpu_ids file debug name k m h = ground arith

  prepare-named :
      (args : RunEnclavesArgs) (k : H.State) (m : Manager H.driver)
      → (prepare H args k).0 ≡ ok m
      → args.enclave_name ≡ some m.enclave_name
  unfolding prepare
  prepare-named args k m h = grind (arith, new_manager-named)

  -- A request to run an enclave succeeds only for an image with no signature or a valid one; the
  -- enclave then has the name of the request and is in the state `Running`.
  pub run_enclaves-ok :
      (args : RunEnclavesArgs) (k : H.State) (m : Manager H.driver)
      (d : NitroCliResult (DescribeThreadResult H.Metadata))
      → (run_enclaves H args k).0 ≡ ok (m, d)
      → IsTrusted args.eif_path
        × (args.enclave_name ≡ some m.enclave_name)
        × (m.world.handle.state ≡ EnclaveState.running)
  unfolding run_enclaves
  run_enclaves-ok args k m d h =
      let (manager, made, p) = continue-ok (prepare H args k) _ h in
      let manager' : Manager H.driver = record manager {
        world = record manager.world { sys = (prepare H args k).1 };
      } in
      let r = run_with_manager H args.eif_path manager' in
      let (ran, same) = return_manager-ok r m d (sym (ap (λ x. x.0) p) ∙ h) in
      let (trusted, running, named) = run_with_manager-ok args.eif_path manager' d ran in
      (
        trusted,
        prepare-named args k manager made ∙ ap some (sym named ∙ ap (λ n. n.enclave_name) same),
        sym (ap (λ n. n.world.handle.state) same) ∙ running,
      )
