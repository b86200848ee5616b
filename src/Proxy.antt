-- ===== src/Proxy.antt =====
-- vsock_proxy: the proxy that lets an enclave talk to one allowed host. Failures are values; a text
-- is a list of code points.
pub mod Dns
pub mod Allowlist
pub mod Relay
mod Tests
use aws_nitro_enclaves_cli.Common.{
  ℕ, ◌+◌, ◌-◌, ◌%◌, ◌^◌, ◌≡◌, refl, ◌↔◌, Bool, true, false, ◌&&◌, Option, none, some, List, [], ◌∷◌,
  arith, ◌==◌,
}
use aws_nitro_enclaves_cli.Common.Int.{ℤ, pos, negsuc}

-- The errors of the proxy, by their texts; `panicked` is the end of the thread.
pub data ProxyError : Type 0 where
  could_not_open could_not_read bad_yaml no_allowlist no_address no_port not_allowed : ProxyError
  bad_domain no_resolver lookup_failed no_addresses no_accepted_ip unresolved resolution_failed :
      ProxyError
  not_accepted panicked : ProxyError

pub data VsockProxyResult {ℓ} (A : Type ℓ) : Type ℓ where
  done : A → VsockProxyResult A
  failed : ProxyError → VsockProxyResult A

module _ {ℓ κ} {A : Type ℓ} {B : Type κ} where
  infixl 5 ◌>>=◌
  abbrev pub ◌>>=◌ : VsockProxyResult A → (A → VsockProxyResult B) → VsockProxyResult B
  failed e >>= next = failed e
  done a >>= next = next a

module _ {ℓ κ} {A : Type ℓ} {B : Type κ} (next : A → VsockProxyResult B) (b : B) where
  -- The first step of a chain that is done was done, and what followed it too.
  pub >>=-eq-done :
      (first : VsockProxyResult A)
      → (first >>= next) ≡ done b
      → (a : A) × (first ≡ done a) × (next a ≡ done b)
  >>=-eq-done (failed e) h = cc
  >>=-eq-done (done a) h = (a, refl, h)

-- `ok_or` and `map_err`, for an answer of the system.
abbrev pub or_fail {ℓ} : {A : Type ℓ} → ProxyError → Option A → VsockProxyResult A
or_fail e (some a) = done a
or_fail e none = failed e

-- `i64 as u16`
abbrev pub as_u16 : ℤ → ℕ
as_u16 (pos n) = n % 2 ^ 16
as_u16 (negsuc n) = 2 ^ 16 - 1 - n % 2 ^ 16
