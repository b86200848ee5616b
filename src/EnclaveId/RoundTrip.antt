-- ===== src/EnclaveId/RoundTrip.antt =====
-- The slot ID is read back from the enclave ID that was made of it.
use aws_nitro_enclaves_cli.Common.{
  ℕ, zero, suc, ◌+◌, ◌*◌, ◌/◌, ◌%◌, ◌^◌, ◌≤◌, ◌<◌, ◌≡◌, refl, ◌∙◌, ◌≢◌, inl, inr, false, some, List,
  [], ◌∷◌, ◌++◌, arith, ltb, All, Bool-cases, ltb→lt,
}
use aws_nitro_enclaves_cli.Failure.{ok}
use aws_nitro_enclaves_cli.Text.{strip, IsFree}
use aws_nitro_enclaves_cli.EnclaveId.{
  hex_digit, show_hex, to_hex, hex_value, parse_hex, from_str_radix_16, enc, starts_with, split_enc,
  BoardTag, absent, open_fails, read_fails, contents, no_tag, generate_enclave_id, get_slot_id,
}

hex_value-hex_digit : (d : ℕ) → d < 16 → hex_value (hex_digit d) ≡ some d
unfolding hex_value
hex_value-hex_digit d h = ground arith

parse_hex-digit :
    (n d : ℕ) (rest : List ℕ)
    → d < 16
    → n * 16 + d < 2 ^ 64
    → parse_hex n (hex_digit d ∷ rest) ≡ parse_hex (n * 16 + d) rest
unfolding parse_hex
parse_hex-digit n d rest h small = ground (arith, hex_value-hex_digit d h)

parse_hex-show_hex :
    (fuel n : ℕ) (rest : List ℕ)
    → n < fuel
    → n < 2 ^ 64
    → parse_hex 0 (show_hex fuel n rest) ≡ parse_hex n rest
unfolding show_hex
parse_hex-show_hex zero n rest h small = absurd (omega arith)
parse_hex-show_hex (suc fuel) n rest h small = elim (Bool-cases (ltb n 16)) [
  | inl one ↦
      let e : 0 * 16 + n ≡ n = omega arith in
      rw one (rw e at (parse_hex-digit 0 n rest (ltb→lt n 16 one) (omega arith)))
  | inr more ↦
      let e : n / 16 * 16 + n % 16 ≡ n = omega arith in
      rw more (
        parse_hex-show_hex fuel (n / 16) (hex_digit (n % 16) ∷ rest) (ground arith) (omega arith)
        ∙ rw e at (parse_hex-digit (n / 16) (n % 16) rest (omega arith) (omega arith)))
]

-- A printed digit is no plus sign and not the first character of the separator.
abbrev IsHex : ℕ → Type 0
IsHex c = (b'0' ≤ c) × (c ≤ b'f')

show_hex-All : (fuel n : ℕ) (rest : List ℕ) → All IsHex rest → All IsHex (show_hex fuel n rest)
unfolding show_hex
show_hex-All zero n rest h = h
show_hex-All (suc fuel) n rest h =
    ground (arith, show_hex-All fuel (n / 16) (hex_digit (n % 16) ∷ rest))

show_hex-ne-nil : (fuel n : ℕ) (rest : List ℕ) → rest ≢ [] → show_hex fuel n rest ≢ []
unfolding show_hex
show_hex-ne-nil zero n rest h = h
show_hex-ne-nil (suc fuel) n rest h =
    ground (arith, show_hex-ne-nil fuel (n / 16) (hex_digit (n % 16) ∷ rest))

to_hex-ne-nil : (n : ℕ) → to_hex n ≢ []
unfolding to_hex show_hex
to_hex-ne-nil n = ground (arith, show_hex-ne-nil n (n / 16) (hex_digit (n % 16) ∷ []))

from_str_radix_16-All :
    (cs : List ℕ) → All IsHex cs → cs ≢ [] → from_str_radix_16 cs ≡ parse_hex 0 cs
unfolding from_str_radix_16
from_str_radix_16-All [] h ne = absurd (ne refl)
from_str_radix_16-All (c ∷ cs) h ne = ground arith

pub from_str_radix_16-to_hex : (n : ℕ) → n < 2 ^ 64 → from_str_radix_16 (to_hex n) ≡ some n
unfolding parse_hex
from_str_radix_16-to_hex n small =
    from_str_radix_16-All (to_hex n) (unfold to_hex in show_hex-All (suc n) n [] tt)
      (to_hex-ne-nil n)
    ∙ (unfold to_hex in parse_hex-show_hex (suc n) n [] (omega arith) small)

-- Digits hold no separator.
split_enc-All : (cs : List ℕ) → All IsHex cs → split_enc 0 cs ≡ cs ∷ []
unfolding split_enc starts_with
split_enc-All [] h = refl
split_enc-All (c ∷ cs) h = ground (arith, split_enc-All cs h.1)

-- No separator begins in a text without the letter n, in front of a separator.
starts_with-tag :
    (c : ℕ) (tag rest : List ℕ)
    → IsFree b'n' (c ∷ tag)
    → starts_with enc ((c ∷ tag) ++ enc ++ rest) ≡ false
unfolding starts_with
starts_with-tag c [] rest h = ground arith
starts_with-tag c (d ∷ []) rest h = ground arith
starts_with-tag c (d ∷ e ∷ tag) rest h = ground arith

split_enc-tag :
    (tag rest : List ℕ)
    → IsFree b'n' tag
    → split_enc 0 (tag ++ enc ++ rest) ≡ tag ∷ split_enc 0 rest
unfolding split_enc
split_enc-tag [] rest h = unfold starts_with in refl
split_enc-tag (c ∷ tag) rest h =
    ground (arith, starts_with-tag c tag rest h, split_enc-tag tag rest h.1)

-- No letter n stands in the tag.
abbrev pub HasPlainTag : BoardTag → Type 0
HasPlainTag (contents tag) = IsFree b'n' (strip tag)
HasPlainTag _ = Unit

get_slot_id-tag :
    (tag : List ℕ) (slot_id : ℕ)
    → slot_id < 2 ^ 64
    → IsFree b'n' tag
    → get_slot_id (tag ++ enc ++ to_hex slot_id) ≡ some slot_id
unfolding get_slot_id
get_slot_id-tag tag slot_id small free =
    rw
      (
        split_enc-tag tag (to_hex slot_id) free,
        split_enc-All (to_hex slot_id) (unfold to_hex in show_hex-All (suc slot_id) slot_id [] tt),
      )
      (from_str_radix_16-to_hex slot_id small)

-- The ID of an enclave gives back its slot ID, for every slot ID of 64 bits, if the asset tag of
-- the board has no letter n or there is no file with the tag.
pub get_slot_id-generate_enclave_id :
    (board : BoardTag) (slot_id : ℕ) (id : List ℕ)
    → slot_id < 2 ^ 64
    → HasPlainTag board
    → generate_enclave_id board slot_id ≡ ok id
    → get_slot_id id ≡ some slot_id
unfolding generate_enclave_id
get_slot_id-generate_enclave_id absent slot_id id small plain h =
    ground (arith, get_slot_id-tag no_tag slot_id small (ground arith))
get_slot_id-generate_enclave_id (contents tag) slot_id id small plain h =
    ground (arith, get_slot_id-tag (strip tag) slot_id small plain)
get_slot_id-generate_enclave_id open_fails slot_id id small plain h = cc
get_slot_id-generate_enclave_id read_fails slot_id id small plain h = cc

split_enc-hex :
    (tag : List ℕ) (slot_id : ℕ)
    → IsFree b'n' tag
    → split_enc 0 (tag ++ enc ++ to_hex slot_id) ≡ tag ∷ to_hex slot_id ∷ []
split_enc-hex tag slot_id free =
    rw
      (
        split_enc-tag tag (to_hex slot_id) free,
        split_enc-All (to_hex slot_id) (unfold to_hex in show_hex-All (suc slot_id) slot_id [] tt),
      )
      refl

-- The pieces of the ID of an enclave.
pub split_enc-generate_enclave_id :
    (board : BoardTag) (slot_id : ℕ) (id : List ℕ)
    → HasPlainTag board
    → generate_enclave_id board slot_id ≡ ok id
    → (tag : List ℕ) × (split_enc 0 id ≡ tag ∷ to_hex slot_id ∷ [])
unfolding generate_enclave_id
split_enc-generate_enclave_id absent slot_id id plain h =
    (no_tag, ground (arith, split_enc-hex no_tag slot_id (ground arith)))
split_enc-generate_enclave_id (contents tag) slot_id id plain h =
    (strip tag, ground (arith, split_enc-hex (strip tag) slot_id plain))
split_enc-generate_enclave_id open_fails slot_id id plain h = cc
split_enc-generate_enclave_id read_fails slot_id id plain h = cc
