-- ===== src/Enclave/Commands.antt =====
-- src/enclave_proc/commands.rs: `terminate_enclaves`. Whether the answer to the user can be encoded
-- is up to the JSON library.
use aws_nitro_enclaves_cli.Common.{◌≡◌, ◌≢◌, Bool, false, some, arith, if◌then◌else◌}
use aws_nitro_enclaves_cli.Failure.{NitroCliErrorEnum, NitroCliResult, ok, err, exit, serde_error}
use aws_nitro_enclaves_cli.Exec.{Exec, pure, raise, ◌>>◌}
use aws_nitro_enclaves_cli.Enclave.{Driver, EnclaveState}
use aws_nitro_enclaves_cli.Enclave.Manager.{
  Manager, on_system, update_state, terminate_enclave, terminate_enclave_frees_twice,
}

module _ (D : Driver) (encodes connected : Bool) where
  -- `safe_conn_println` and `safe_conn_eprintln`
  abbrev tell : Exec (Manager D) (Unit {0})
  tell = if connected then on_system D D.notify else pure tt

  -- The `if let Err(…)` on the result of the termination, which an exit does not reach.
  abbrev after_termination :
      NitroCliResult (Unit {0}) × Manager D → NitroCliResult (Unit {0}) × Manager D
  after_termination (ok _, m) =
      (do update_state D EnclaveState.empty; tell; (if encodes then tell else raise serde_error)) m
  after_termination (err e, m) = (do tell; raise e) m
  after_termination (exit e, m) = (exit e, m)

  unfoldable pub terminate_enclaves : Exec (Manager D) (Unit {0})
  terminate_enclaves = do
    update_state D EnclaveState.terminating
    (λ m. after_termination (terminate_enclave D m))

  after_termination-fails :
      (r : NitroCliResult (Unit {0}) × Manager D) (e : NitroCliErrorEnum)
      → r.0 ≡ err e
      → ((after_termination r).0 ≢ ok tt)
        × ((after_termination r).1.world.handle ≡ r.1.world.handle)
  after_termination-fails (ok _, m) e h = absurd (ground arith)
  after_termination-fails (exit _, m) e h = absurd (ground arith)
  after_termination-fails (err _, m) e h = ground arith

  after_termination-ok :
      (r : NitroCliResult (Unit {0}) × Manager D)
      → (after_termination r).0 ≡ ok tt
      → (r.0 ≡ ok tt)
        × ((after_termination r).1.world.handle.state ≡ EnclaveState.empty)
        × ((after_termination r).1.world.handle.enclave_cid ≡ r.1.world.handle.enclave_cid)
        × ((after_termination r).1.enclave_id ≡ r.1.enclave_id)
        × ((after_termination r).1.enclave_name ≡ r.1.enclave_name)
  unfolding update_state
  after_termination-ok (ok _, m) h = ground arith
  after_termination-ok (err _, m) h = absurd (ground arith)
  after_termination-ok (exit _, m) h = absurd (ground arith)

  terminate_enclave-same :
      (m : Manager D)
      → (terminate_enclave D m).0 ≡ ok tt
      → ((terminate_enclave D m).1.enclave_id ≡ m.enclave_id)
        × ((terminate_enclave D m).1.enclave_name ≡ m.enclave_name)
  unfolding terminate_enclave
  terminate_enclave-same m h = ground arith

  -- When the manager's mutex is sound and the termination of the enclave fails, the request fails,
  -- and the enclave is left as the failed termination leaves it, but for the message to the user.
  terminate_enclaves-fails :
      (m : Manager D) (e : NitroCliErrorEnum)
      → m.poisoned ≡ false
      → (terminate_enclave D (update_state D EnclaveState.terminating m).1).0 ≡ err e
      → ((terminate_enclaves m).0 ≢ ok tt)
        × ((terminate_enclaves m).1.world.handle
            ≡ (terminate_enclave D (update_state D EnclaveState.terminating m).1).1.world.handle)
  unfolding terminate_enclaves update_state
  terminate_enclaves-fails m e sound failure = ground (
    arith,
    after_termination-fails (terminate_enclave D (update_state D EnclaveState.terminating m).1) e
        failure,
  )

  -- After a termination on request that succeeds, the enclave is in the state `Empty` with CID 0, and
  -- keeps its ID and its name.
  terminate_enclaves-ok :
      (m : Manager D)
      → (terminate_enclaves m).0 ≡ ok tt
      → ((terminate_enclaves m).1.world.handle.state ≡ EnclaveState.empty)
        × ((terminate_enclaves m).1.world.handle.enclave_cid ≡ some 0)
        × ((terminate_enclaves m).1.enclave_id ≡ m.enclave_id)
        × ((terminate_enclaves m).1.enclave_name ≡ m.enclave_name)
  unfolding terminate_enclaves update_state
  terminate_enclaves-ok m h =
      let m' : Manager D = (update_state D EnclaveState.terminating m).1 in
      ground (
        arith,
        after_termination-ok (terminate_enclave D m'),
        terminate_enclave-same m',
        terminate_enclave_frees_twice D m',
      )
