-- ===== src/EnclaveId/Tests.antt =====
-- The ID of an enclave in slot 0xabc on a board with an asset tag.
use aws_nitro_enclaves_cli.Common.{ℕ, ◌≡◌, refl, some, List, [], ◌∷◌, arith}
use aws_nitro_enclaves_cli.Text.{strip}
use aws_nitro_enclaves_cli.EnclaveId.{BoardTag, contents, generate_enclave_id, get_slot_id}
use aws_nitro_enclaves_cli.EnclaveId.RoundTrip.{get_slot_id-generate_enclave_id}

-- "i-0f\n"
abbrev board : BoardTag
board = contents (b'i' ∷ b'-' ∷ b'0' ∷ b'f' ∷ 10 ∷ [])

-- "i-0f-encabc"
abbrev id : List ℕ
id = b'i' ∷ b'-' ∷ b'0' ∷ b'f' ∷ b'-' ∷ b'e' ∷ b'n' ∷ b'c' ∷ b'a' ∷ b'b' ∷ b'c' ∷ []

get_slot_id-generate_enclave_id_example : get_slot_id id ≡ some 0xabc
unfolding generate_enclave_id strip
get_slot_id-generate_enclave_id_example =
    get_slot_id-generate_enclave_id board 0xabc id (omega arith) (refl, (refl, (refl, (refl, tt))))
      refl
