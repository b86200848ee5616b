-- ===== src/Wire/Tests.antt =====
-- A command of one byte with an argument of two.
use aws_nitro_enclaves_cli.Common.{ℕ, ◌≡◌, refl, Option, none, some, List, [], ◌∷◌, arith}
use aws_nitro_enclaves_cli.Failure.{ok}
use aws_nitro_enclaves_cli.Wire.{
  Sink, Codec, write_all, to_le_bytes, write_u64_le, write_frame, enclave_proc_command_send_single,
}
use aws_nitro_enclaves_cli.Wire.RoundTrip.{IsFaithful, receive_both, receive-send}

abbrev one_byte : Option (List ℕ) → Option ℕ
one_byte (some (b ∷ [])) = some b
one_byte _ = none

abbrev byte_codec : Codec ℕ
byte_codec = record { to_vec = λ n. some (n ∷ []); from_slice = λ bytes. one_byte (some bytes) }

byte_codec-IsFaithful : IsFaithful byte_codec
byte_codec-IsFaithful = record {
  small = λ a bytes e. ground arith;
  decodes = λ a bytes e. ground arith;
}

abbrev fresh_socket : Sink
fresh_socket = record { written = []; limit = 1000 }

receive-send_example :
    receive_both byte_codec byte_codec
      (enclave_proc_command_send_single byte_codec byte_codec 3 (some 9) fresh_socket).1.written
    ≡ (ok (3, 3, 9), [])
unfolding enclave_proc_command_send_single write_frame write_u64_le write_all to_le_bytes
receive-send_example =
    receive-send byte_codec byte_codec 3 9 fresh_socket byte_codec-IsFaithful byte_codec-IsFaithful
      refl refl
