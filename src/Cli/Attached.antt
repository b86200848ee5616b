-- ===== src/Cli/Attached.antt =====
-- When the command line program attaches to a console, and what it has sent before.
use aws_nitro_enclaves_cli.Common.{
  ℕ, ◌≡◌, ◌≢◌, inl, inr, refl, Option, List, [], ◌∷◌, ◌++◌, arith, ◌==◌, ap, ◌∙◌, Bool-cases,
}
use Prim.Native.Nat.{bit_and}
use aws_nitro_enclaves_cli.Failure.{NitroCliResult, ok, err, exit}
use aws_nitro_enclaves_cli.Exec.{Exec, ◌>>=◌, ◌>>◌}
use aws_nitro_enclaves_cli.Command.{EnclaveProcessCommandType}
use aws_nitro_enclaves_cli.Wire.{Codec}
use aws_nitro_enclaves_cli.Connection.Stream.{Stream}
use aws_nitro_enclaves_cli.Enclave.Create.{ne_enclave_debug_mode}
use aws_nitro_enclaves_cli.Args.Others.{CommandMatches, console_args}
use aws_nitro_enclaves_cli.Comm.Single.{enclave_proc_get_cid, enclave_proc_get_flags}
use aws_nitro_enclaves_cli.Cli.Console.{console_port}
use aws_nitro_enclaves_cli.Cli.Main.{
  Program, or_exit, check_debug, console_enclaves, console_command,
}

-- A step that fails attaches nothing, and one that succeeds leaves the rest to the steps behind it.
module _ {A B : Type 0} where
  or_exit-cases :
      (r : NitroCliResult A) (k : A → Exec Program B) (p : Program)
      → ((or_exit r >>= k) p).1.attached ≢ p.attached
      → (a : A) × (r ≡ ok a) × ((or_exit r >>= k) p ≡ k a p)
  or_exit-cases (ok a) k p h = (a, refl, refl)
  or_exit-cases (err e) k p h = absurd (h refl)
  or_exit-cases (exit e) k p h = absurd (h refl)

moves_on :
    {x y : NitroCliResult (Unit {0}) × Program} {attached : List (ℕ × Option ℕ)}
    → x ≡ y
    → x.1.attached ≢ attached
    → y.1.attached ≢ attached
moves_on step h same =
    h (ap (λ (r : NitroCliResult (Unit {0}) × Program). r.1.attached) step ∙ same)

check_debug-cases :
    (flags : ℕ) (k : Exec Program (Unit {0})) (p : Program)
    → ((check_debug flags >> k) p).1.attached ≢ p.attached
    → (bit_and flags ne_enclave_debug_mode ≢ 0) × ((check_debug flags >> k) p ≡ k p)
check_debug-cases flags k p h = elim (Bool-cases (bit_and flags ne_enclave_debug_mode == 0)) [
  | inl clear ↦ absurd (h (rw clear refl))
  | inr set ↦ (λ zero_flags. ground (arith, set, zero_flags), rw set refl)
]

module _ (console : ℕ → Option ℕ → NitroCliResult (Unit {0})) where
  console_enclaves-attached :
      (cid : ℕ) (timeout : Option ℕ) (p : Program)
      → (console_enclaves console cid timeout p).1.attached ≢ p.attached
      → (port : ℕ) × (console_port cid ≡ ok port)
        × ((console_enclaves console cid timeout p).1.attached ≡ p.attached ++ (port, timeout) ∷ [])
  unfolding console_enclaves
  console_enclaves-attached cid timeout p h =
      let (port, e, step) = or_exit-cases (console_port cid) _ p h in
      (port, e, ap (λ (r : NitroCliResult (Unit {0}) × Program). r.1.attached) step)

  module _ (commands : Codec EnclaveProcessCommandType) where
    -- Where the command `console` attaches to a console at all, the process of the enclave asked for
    -- has reported flags with the bit of the debug mode, and the console is that one whose port belongs to
    -- the CID that it has reported, with the timeout asked for.
    pub console_command-debug :
        (get_id_by_name : List ℕ → NitroCliResult (List ℕ))
        (for_cid for_flags : List ℕ → Option Stream) (args : CommandMatches) (p : Program)
        → let q = (console_command console commands get_id_by_name for_cid for_flags args p).1 in
          q.attached ≢ p.attached
          → (enclave_id : List ℕ) × (timeout : Option ℕ) × (cid : ℕ) × (flags : ℕ) × (port : ℕ)
            × (console_args get_id_by_name args ≡ ok (enclave_id, timeout))
            × (enclave_proc_get_cid commands (for_cid enclave_id) ≡ ok cid)
            × (enclave_proc_get_flags commands (for_flags enclave_id) ≡ ok flags)
            × (bit_and flags ne_enclave_debug_mode ≢ 0)
            × (console_port cid ≡ ok port)
            × (q.attached ≡ p.attached ++ (port, timeout) ∷ [])
    unfolding console_command
    console_command-debug get_id_by_name for_cid for_flags args p h =
        let at = λ (r : NitroCliResult (Unit {0}) × Program). r.1.attached in
        let ((id, timeout), given, step) = or_exit-cases (console_args get_id_by_name args) _ p h in
        let moves = moves_on step h in
        let (cid, cid_is, step1) =
          or_exit-cases (enclave_proc_get_cid commands (for_cid id)) _ p moves in
        let moves1 = moves_on step1 moves in
        let (flags, flags_are, step2) =
          or_exit-cases (enclave_proc_get_flags commands (for_flags id)) _ p moves1 in
        let moves2 = moves_on step2 moves1 in
        let (debug, step3) =
          check_debug-cases flags (console_enclaves console cid timeout) p moves2 in
        let moves3 = moves_on step3 moves2 in
        let (port, port_is, attaches) = console_enclaves-attached cid timeout p moves3 in
        (
          id,
          timeout,
          cid,
          flags,
          port,
          given,
          cid_is,
          flags_are,
          debug,
          port_is,
          ap at (step ∙ step1 ∙ step2 ∙ step3) ∙ attaches,
        )
