-- ===== src/EnclaveId.antt =====
-- src/enclave_proc/utils.rs: the ID of an enclave, made of the instance's tag and the slot ID, and
-- the slot ID read back from it.
pub mod RoundTrip
mod Tests
use aws_nitro_enclaves_cli.Common.{
  ℕ, zero, suc, ◌+◌, ◌-◌, ◌*◌, ◌/◌, ◌%◌, ◌^◌, Bool, true, false, ◌&&◌, Option, none, some, List, [],
  ◌∷◌, ◌++◌, ltb, leb, ◌==◌, if◌then◌else◌,
}
use aws_nitro_enclaves_cli.Failure.{NitroCliResult, ok, err, file_operation_failure}
use aws_nitro_enclaves_cli.Text.{strip}

-- The digit of a number below 16, as `{:x}` prints it.
abbrev pub hex_digit : ℕ → ℕ
hex_digit d = if ltb d 10 then b'0' + d else b'a' + (d - 10)

-- The hexadecimal digits of `n` in front of `rest`; fuel above `n` is enough.
unfoldable pub show_hex : ℕ → ℕ → List ℕ → List ℕ
show_hex zero n rest = rest
show_hex (suc fuel) n rest =
    let more = show_hex fuel (n / 16) (hex_digit (n % 16) ∷ rest) in
    if ltb n 16 then hex_digit n ∷ rest else more

unfoldable pub to_hex : ℕ → List ℕ
unfolding show_hex
to_hex n = show_hex (suc n) n []

-- `char::to_digit(16)`
unfoldable pub hex_value : ℕ → Option ℕ
hex_value c =
    if leb b'0' c && leb c b'9'
    then some (c - b'0')
    else if leb b'a' c && leb c b'f'
    then some (c - b'a' + 10)
    else if leb b'A' c && leb c b'F'
    then some (c - b'A' + 10)
    else none

-- The digits of `u64::from_str_radix(_, 16)`; `none` for another character or an overflow.
unfoldable pub parse_hex : ℕ → List ℕ → Option ℕ
unfolding hex_value
parse_hex n [] = some n
parse_hex n (c ∷ cs) = elim (hex_value c) [
  | none ↦ none
  | some d ↦ if ltb (n * 16 + d) (2 ^ 64) then parse_hex (n * 16 + d) cs else none
]

abbrev parse_unsigned : List ℕ → Option ℕ
parse_unsigned [] = none
parse_unsigned (c ∷ cs) = parse_hex 0 (c ∷ cs)

-- At least one digit, behind an optional plus sign.
unfoldable pub from_str_radix_16 : List ℕ → Option ℕ
unfolding parse_hex
from_str_radix_16 [] = none
from_str_radix_16 (c ∷ cs) = if c == b'+' then parse_unsigned cs else parse_hex 0 (c ∷ cs)

-- "-enc"
abbrev pub enc : List ℕ
enc = b'-' ∷ b'e' ∷ b'n' ∷ b'c' ∷ []

unfoldable pub starts_with : List ℕ → List ℕ → Bool
starts_with [] text = true
starts_with (p ∷ ps) [] = false
starts_with (p ∷ ps) (c ∷ cs) = p == c && starts_with ps cs

abbrev push_front : ℕ → List (List ℕ) → List (List ℕ)
push_front c [] = (c ∷ []) ∷ []
push_front c (piece ∷ pieces) = (c ∷ piece) ∷ pieces

-- `split("-enc")`; the first argument counts the characters of a separator that are still to skip.
unfoldable pub split_enc : ℕ → List ℕ → List (List ℕ)
split_enc skip [] = [] ∷ []
split_enc (suc skip) (c ∷ cs) = split_enc skip cs
split_enc zero (c ∷ cs) = elim (starts_with enc (c ∷ cs)) [
  | true ↦ [] ∷ split_enc 3 cs
  | false ↦ push_front c (split_enc 0 cs)
]

-- What the system answers for the file of the board's asset tag.
pub data BoardTag : Type 0 where
  absent open_fails read_fails : BoardTag
  contents : List ℕ → BoardTag

-- "i-0000000000000000"
abbrev pub no_tag : List ℕ
no_tag =
    b'i' ∷ b'-' ∷ b'0' ∷ b'0' ∷ b'0' ∷ b'0' ∷ b'0' ∷ b'0' ∷ b'0' ∷ b'0' ∷ b'0' ∷ b'0' ∷ b'0' ∷ b'0'
    ∷ b'0' ∷ b'0' ∷ b'0' ∷ b'0' ∷ []

unfoldable pub generate_enclave_id : BoardTag → ℕ → NitroCliResult (List ℕ)
unfolding to_hex
generate_enclave_id absent slot_id = ok (no_tag ++ enc ++ to_hex slot_id)
generate_enclave_id open_fails slot_id = err file_operation_failure
generate_enclave_id read_fails slot_id = err file_operation_failure
generate_enclave_id (contents tag) slot_id = ok (strip tag ++ enc ++ to_hex slot_id)

-- `tokens.get(1)` of the pieces; `none` stands for the two error texts.
abbrev second_token : List (List ℕ) → Option ℕ
second_token (first ∷ second ∷ pieces) = from_str_radix_16 second
second_token _ = none

unfoldable pub get_slot_id : List ℕ → Option ℕ
get_slot_id enclave_id = second_token (split_enc 0 enclave_id)
