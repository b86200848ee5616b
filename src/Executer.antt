-- ===== src/Executer.antt =====
-- samples/command_executer: commands and files over a vsock connection. This file has the state that its
-- functions change and the ways in which they end; its children have the functions.
pub mod Socket
pub mod Utf8
pub mod Process
pub mod Server
pub mod Client
pub mod Buffer
pub mod Rounds
pub mod Receive
pub mod Send
pub mod FileReceived
pub mod FileSent
pub mod Messages
pub mod Stored
pub mod Served
pub mod Copied
pub mod Commands
pub mod Ran
pub mod Descriptors
pub mod Overflow
pub mod Connect
pub mod Options
mod Tests
use aws_nitro_enclaves_cli.Common.{ℕ, List, Option, none, some, ◌≡◌, refl, arith}

-- The errors that the functions return, as texts in the source.
pub data Problem : Type 0 where
  errno : ℕ → Problem
  socket_failed bind_failed listen_failed accept_failed connect_failed : ℕ → Problem
  not_utf8 could_not_open could_not_get_metadata could_not_read could_not_write : Problem
  could_not_execute could_not_serialize could_not_deserialize : Problem

-- How a call ends. A call that is blocked waits in the kernel when the answers that are known are used
-- up; one that has panicked has ended the program.
pub data Outcome {ℓ} (A : Type ℓ) : Type ℓ where
  done : A → Outcome A
  failed : Problem → Outcome A
  panicked blocked : Outcome A

abbrev pub Io {ℓ κ} : Type ℓ → Type κ → Type (ℓ ⊔ κ)
Io W A = W → Outcome A × W

module _ {ℓ κ} {W : Type ℓ} {A : Type κ} where
  abbrev pub pure : A → Io W A
  pure a w = (done a, w)

  abbrev pub raise : Problem → Io W A
  raise e w = (failed e, w)

  abbrev pub gets : (W → A) → Io W A
  gets f w = (done (f w), w)

abbrev pub modify {ℓ} : {W : Type ℓ} → (W → W) → Io W (Unit {0})
modify f w = (done tt, f w)

abbrev pub or_raise {ℓ κ} : {W : Type ℓ} {A : Type κ} → Problem → Option A → Io W A
or_raise e none = raise e
or_raise e (some a) = pure a

module _ {ℓ κ μ} {W : Type ℓ} {A : Type κ} {B : Type μ} where
  abbrev pub continue : Outcome A × W → (A → Io W B) → Outcome B × W
  continue (done a, w) f = f a w
  continue (failed e, w) f = (failed e, w)
  continue (panicked, w) f = (panicked, w)
  continue (blocked, w) f = (blocked, w)

  infixl 5 ◌>>=◌ ◌>>◌
  abbrev pub ◌>>=◌ : Io W A → (A → Io W B) → Io W B
  ◌>>=◌ m f w = continue (m w) f

  abbrev pub ◌>>◌ : Io W A → Io W B → Io W B
  ◌>>◌ m k w = continue (m w) (λ _. k)

  -- A chain that is done: its first step is, and the chain is what follows it.
  pub continue-done :
      (r : Outcome A × W) (f : A → Io W B) {b : B}
      → (continue r f).0 ≡ done b
      → (a : A) × (r.0 ≡ done a) × (continue r f ≡ f a r.1)
  continue-done (done a, w) f h = (a, refl, refl)
  continue-done (failed e, w) f h = absurd (ground arith)
  continue-done (panicked, w) f h = absurd (ground arith)
  continue-done (blocked, w) f h = absurd (ground arith)
