-- ===== src/Exec.antt =====
-- Methods that change an object and may fail: what was written before a failure stays written, so
-- the state comes back beside the error too.
use mathlib.Core.Path.{◌≡◌, refl}
use native.Mathlib.Omega.{arith}
use aws_nitro_enclaves_cli.Failure.{NitroCliErrorEnum, NitroCliResult, ok, err, exit}

abbrev pub Exec {ℓ κ} : Type ℓ → Type κ → Type (ℓ ⊔ κ)
Exec W A = W → NitroCliResult A × W

module _ {ℓ κ} {W : Type ℓ} {A : Type κ} where
  abbrev pub pure : A → Exec W A
  pure a w = (ok a, w)

  abbrev pub raise : NitroCliErrorEnum → Exec W A
  raise e w = (err e, w)

  abbrev pub lift : NitroCliResult A → Exec W A
  lift r w = (r, w)

  abbrev pub gets : (W → A) → Exec W A
  gets f w = (ok (f w), w)

abbrev pub modify {ℓ} : {W : Type ℓ} → (W → W) → Exec W (Unit {0})
modify f w = (ok tt, f w)

module _ {ℓ κ μ} {W : Type ℓ} {A : Type κ} {B : Type μ} where
  abbrev pub continue : NitroCliResult A × W → (A → Exec W B) → NitroCliResult B × W
  continue (ok a, w) f = f a w
  continue (err e, w) f = (err e, w)
  continue (exit e, w) f = (exit e, w)

  infixl 5 ◌>>=◌ ◌>>◌
  abbrev pub ◌>>=◌ : Exec W A → (A → Exec W B) → Exec W B
  ◌>>=◌ m f w = continue (m w) f

  abbrev pub ◌>>◌ : Exec W A → Exec W B → Exec W B
  ◌>>◌ m k w = continue (m w) (λ _. k)

module _ {ℓ κ μ} {W : Type ℓ} {A : Type κ} {B : Type μ} where
  -- Inversion of a chain that succeeds: its first step did, and the chain is what follows it.
  pub continue-ok :
      (r : NitroCliResult A × W) (f : A → Exec W B) {b : B}
      → (continue r f).0 ≡ ok b
      → (a : A) × (r.0 ≡ ok a) × (continue r f ≡ f a r.1)
  continue-ok (ok a, w) f h = (a, refl, refl)
  continue-ok (err e, w) f h = absurd (ground arith)
  continue-ok (exit e, w) f h = absurd (ground arith)

module _ {W V : Type 0} (view : W → V) where
  -- A method that leaves a part of the state as it is, however it ends.
  abbrev pub Keeps {ℓ} : {A : Type ℓ} → Exec W A → Type 0
  Keeps body = (w : W) → view (body w).1 ≡ view w
