-- ===== src/Listener/Sockets.antt =====
-- The files of the sockets: whose they are, and that they go with the listener.
use aws_nitro_enclaves_cli.Common.{ℕ, ◌^◌, ◌<◌, ◌≡◌, sym, ap, ◌∙◌, some, List, arith}
use aws_nitro_enclaves_cli.Failure.{ok}
use aws_nitro_enclaves_cli.EnclaveId.{BoardTag, generate_enclave_id, to_hex, from_str_radix_16}
use aws_nitro_enclaves_cli.EnclaveId.RoundTrip.{
  HasPlainTag, split_enc-generate_enclave_id, from_str_radix_16-to_hex,
}
use aws_nitro_enclaves_cli.Host.{Host}
use aws_nitro_enclaves_cli.Listener.{last_token, get_socket_path}

module _ (H : Host) where
  get_socket_path-generate_enclave_id :
      (board : BoardTag) (slot_id : ℕ) (id : List ℕ)
      → HasPlainTag board
      → generate_enclave_id board slot_id ≡ ok id
      → get_socket_path H id ≡ H.socket_file (to_hex slot_id)
  unfolding get_socket_path last_token
  get_socket_path-generate_enclave_id board slot_id id plain h =
      let (tag, e) = split_enc-generate_enclave_id board slot_id id plain h in
      ap (λ tokens. H.socket_file (last_token tokens)) e

  -- Two enclaves have one path for their sockets only if they have one slot, where the slots have 64
  -- bits, the file names of the system differ for different names, and the asset tags of the boards
  -- have no letter n.
  get_socket_path-slot :
      ((a b : List ℕ) → H.socket_file a ≡ H.socket_file b → a ≡ b)
      → (board board' : BoardTag) (slot_id slot_id' : ℕ) (id id' : List ℕ) → slot_id < 2 ^ 64
      → slot_id' < 2 ^ 64
      → HasPlainTag board
      → HasPlainTag board'
      → generate_enclave_id board slot_id ≡ ok id
      → generate_enclave_id board' slot_id' ≡ ok id'
      → get_socket_path H id ≡ get_socket_path H id'
      → slot_id ≡ slot_id'
  get_socket_path-slot injective board board' slot_id slot_id' id id' small small' plain plain' h h'
        same =
      let same_name : to_hex slot_id ≡ to_hex slot_id' =
        injective (to_hex slot_id) (to_hex slot_id') (
          sym (get_socket_path-generate_enclave_id board slot_id id plain h)
          ∙ same
          ∙ get_socket_path-generate_enclave_id board' slot_id' id' plain' h') in
      let read : some slot_id ≡ some slot_id' =
        sym (from_str_radix_16-to_hex slot_id small)
        ∙ ap from_str_radix_16 same_name
        ∙ from_str_radix_16-to_hex slot_id' small' in
      ground arith
