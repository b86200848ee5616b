-- ===== src/Wire.antt =====
-- src/common/mod.rs: messages on a stream socket, each behind its length of eight bytes. The
-- encoding of the messages (`serde_cbor`) is a parameter.
pub mod RoundTrip
mod Tests
use aws_nitro_enclaves_cli.Common.{
  ℕ, zero, suc, ◌+◌, ◌-◌, ◌*◌, ◌/◌, ◌%◌, ◌≡◌, Bool, true, false, Option, none, some, List, [], ◌∷◌,
  ◌++◌, leb, if◌then◌else◌, length, take, drop,
}
use aws_nitro_enclaves_cli.Failure.{
  NitroCliErrorEnum, NitroCliResult, ok, err, exit, socket_error, invalid_command, serde_error,
}
use aws_nitro_enclaves_cli.Exec.{Exec, pure, raise, modify, ◌>>=◌, ◌>>◌}

-- The writing end of a socket: the bytes written, and the number of bytes that it takes before a
-- write fails.
pub record Sink : Type 0 where
  pub written : List ℕ
  pub limit : ℕ

-- `write_all`; a failure has written what still went through.
unfoldable pub write_all : List ℕ → Exec Sink (Unit {0})
write_all bytes s =
    if leb (length s.written + length bytes) s.limit
    then (ok tt, record s { written = s.written ++ bytes })
    else (
      err socket_error,
      record s { written = s.written ++ take (s.limit - length s.written) bytes },
    )

-- `read_exact` of `size` bytes; the state is what is still to be read.
unfoldable pub read_exact : ℕ → Exec (List ℕ) (List ℕ)
read_exact size stream =
    if leb size (length stream)
    then (ok (take size stream), drop size stream)
    else (err socket_error, [])

-- `to_le_bytes` and `from_le_bytes`, for `count` bytes.
unfoldable pub to_le_bytes : ℕ → ℕ → List ℕ
to_le_bytes zero value = []
to_le_bytes (suc count) value = value % 256 ∷ to_le_bytes count (value / 256)

unfoldable pub from_le_bytes : List ℕ → ℕ
from_le_bytes [] = 0
from_le_bytes (b ∷ bytes) = b + 256 * from_le_bytes bytes

unfoldable pub write_u64_le : ℕ → Exec Sink (Unit {0})
write_u64_le value = write_all (to_le_bytes 8 value)

unfoldable pub read_u64_le : Exec (List ℕ) ℕ
read_u64_le = do bytes ← read_exact 8; pure (from_le_bytes bytes)

-- An encoding of the values of a type: `to_vec` and `from_slice`.
pub record Codec {ℓ} (A : Type ℓ) : Type ℓ where
  pub to_vec : A → Option (List ℕ)
  pub from_slice : List ℕ → Option A

abbrev pub or_raise {ℓ κ} : {W : Type ℓ} {A : Type κ} → NitroCliErrorEnum → Option A → Exec W A
or_raise e none = raise e
or_raise e (some a) = pure a

-- One length with its bytes.
unfoldable pub write_frame : List ℕ → Exec Sink (Unit {0})
write_frame bytes = do write_u64_le (length bytes); write_all bytes

module _ {C A : Type 0} (commands : Codec C) (arguments : Codec A) where
  abbrev write_arguments : Option A → Exec Sink (Unit {0})
  write_arguments none = pure tt
  write_arguments (some args) = do
    arg_bytes ← or_raise invalid_command (arguments.to_vec args)
    write_frame arg_bytes

  -- The command is written twice: for the connection listener and for the enclave process.
  unfoldable pub enclave_proc_command_send_single : C → Option A → Exec Sink (Unit {0})
  enclave_proc_command_send_single cmd args = do
    cmd_bytes ← or_raise invalid_command (commands.to_vec cmd)
    write_frame cmd_bytes
    write_frame cmd_bytes
    write_arguments args

module _ {A : Type 0} (codec : Codec A) where
  unfoldable pub receive_from_stream : Exec (List ℕ) A
  receive_from_stream = do
    size ← read_u64_le
    raw_data ← read_exact size
    or_raise serde_error (codec.from_slice raw_data)
