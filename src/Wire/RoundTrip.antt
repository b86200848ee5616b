-- ===== src/Wire/RoundTrip.antt =====
-- What is sent is received.
use aws_nitro_enclaves_cli.Common.{
  ℕ, zero, suc, ◌/◌, ◌^◌, ◌<◌, ◌≡◌, refl, ap, ◌∙◌, some, List, [], ◌++◌, arith, length,
  length-append, take-append, drop-append, Option-cases, inl, inr,
}
use native.Mathlib.Nat.{pow-suc}
use mathlib.Core.List.{append_assoc, append-nil}
use aws_nitro_enclaves_cli.Failure.{ok}
use aws_nitro_enclaves_cli.Exec.{Exec, pure, ◌>>=◌}
use aws_nitro_enclaves_cli.Wire.{
  Sink, write_all, read_exact, to_le_bytes, from_le_bytes, write_u64_le, read_u64_le, Codec,
  write_frame, enclave_proc_command_send_single, receive_from_stream,
}

pub from_le_bytes-to_le_bytes :
    (count value : ℕ) → value < 256 ^ count → from_le_bytes (to_le_bytes count value) ≡ value
unfolding from_le_bytes to_le_bytes
from_le_bytes-to_le_bytes zero value h = omega arith
from_le_bytes-to_le_bytes (suc count) value h =
    omega (arith, from_le_bytes-to_le_bytes count (value / 256) (omega (arith, pow-suc 256 count)))

pub length-to_le_bytes : (count value : ℕ) → length (to_le_bytes count value) ≡ count
unfolding to_le_bytes
length-to_le_bytes zero value = refl
length-to_le_bytes (suc count) value = ap suc (length-to_le_bytes count (value / 256))

-- The bytes of a frame.
abbrev pub frame : List ℕ → List ℕ
frame bytes = to_le_bytes 8 (length bytes) ++ bytes

read_exact-append :
    (bytes rest : List ℕ) → read_exact (length bytes) (bytes ++ rest) ≡ (ok bytes, rest)
unfolding read_exact
read_exact-append bytes rest =
    ground (arith, length-append bytes rest, take-append bytes rest, drop-append bytes rest)

read_exact-append_of :
    (size : ℕ) (bytes rest : List ℕ)
    → length bytes ≡ size
    → read_exact size (bytes ++ rest) ≡ (ok bytes, rest)
read_exact-append_of size bytes rest e = rw e at (read_exact-append bytes rest)

read_u64_le-append :
    (value : ℕ) (rest : List ℕ)
    → value < 2 ^ 64
    → read_u64_le (to_le_bytes 8 value ++ rest) ≡ (ok value, rest)
unfolding read_u64_le
read_u64_le-append value rest h = rw (
  read_exact-append_of 8 (to_le_bytes 8 value) rest (length-to_le_bytes 8 value),
  from_le_bytes-to_le_bytes 8 value h,
)

-- A frame at the front of the stream is received, and the rest stays.
pub receive_from_stream-frame :
    {A : Type 0} (codec : Codec A) (bytes rest : List ℕ) (a : A)
    → length bytes < 2 ^ 64
    → codec.from_slice bytes ≡ some a
    → receive_from_stream codec (frame bytes ++ rest) ≡ (ok a, rest)
unfolding receive_from_stream
receive_from_stream-frame codec bytes rest a small decoded = rw (
  append_assoc,
  read_u64_le-append (length bytes) (bytes ++ rest) small,
  read_exact-append bytes rest,
  decoded,
)

write_all-ok :
    (bytes : List ℕ) (s : Sink)
    → (write_all bytes s).0 ≡ ok tt
    → (write_all bytes s).1.written ≡ s.written ++ bytes
unfolding write_all
write_all-ok bytes s h = ground arith

pub write_frame-ok :
    (bytes : List ℕ) (s : Sink)
    → (write_frame bytes s).0 ≡ ok tt
    → (write_frame bytes s).1.written ≡ s.written ++ frame bytes
unfolding write_frame write_u64_le
write_frame-ok bytes s h =
    let size = to_le_bytes 8 (length bytes) in
    ground (
      arith,
      write_all-ok size s,
      write_all-ok bytes (write_all size s).1,
      append_assoc s.written size bytes,
    )

-- What the code relies on of an encoding: what was encoded is decoded to itself, and is not longer
-- than a length of 64 bits can say.
pub record IsFaithful {A : Type 0} (codec : Codec A) : Type 0 where
  pub decodes :
      (a : A) (bytes : List ℕ) → codec.to_vec a ≡ some bytes → codec.from_slice bytes ≡ some a
  pub small : (a : A) (bytes : List ℕ) → codec.to_vec a ≡ some bytes → length bytes < 2 ^ 64

module _ {C A : Type 0} (commands : Codec C) (arguments : Codec A) where
  -- What a command with arguments leaves in the sink.
  send_writes :
      (cmd : C) (args : A) (s : Sink)
      → (enclave_proc_command_send_single commands arguments cmd (some args) s).0 ≡ ok tt
      → (cmd_bytes : List ℕ) × (arg_bytes : List ℕ) × (commands.to_vec cmd ≡ some cmd_bytes)
        × (arguments.to_vec args ≡ some arg_bytes)
        × ((enclave_proc_command_send_single commands arguments cmd (some args) s).1.written
            ≡ s.written ++ frame cmd_bytes ++ frame cmd_bytes ++ frame arg_bytes)
  unfolding enclave_proc_command_send_single
  send_writes cmd args s h = elim (Option-cases (commands.to_vec cmd)) [
    | inl lost ↦ absurd (ground arith)
    | inr (cmd_bytes, c) ↦ elim (Option-cases (arguments.to_vec args)) [
      | inl lost ↦ absurd (ground arith)
      | inr (arg_bytes, a) ↦
          let s1 = (write_frame cmd_bytes s).1 in
          let s2 = (write_frame cmd_bytes s1).1 in
          (
            cmd_bytes,
            arg_bytes,
            c,
            a,
            ground (
              arith,
              write_frame-ok cmd_bytes s,
              write_frame-ok cmd_bytes s1,
              write_frame-ok arg_bytes s2,
            ),
          )
    ]
  ]

  -- What the two readers of a command with its arguments make of a stream: the connection listener
  -- reads the command, the enclave process reads it again and then the arguments.
  abbrev pub receive_both : Exec (List ℕ) (C × C × A)
  receive_both = do
    listened ← receive_from_stream commands
    cmd ← receive_from_stream commands
    args ← receive_from_stream arguments
    pure (listened, cmd, args)

  receive_both-frames :
      (cmd : C) (args : A) (cmd_bytes arg_bytes : List ℕ)
      → IsFaithful commands
      → IsFaithful arguments
      → commands.to_vec cmd ≡ some cmd_bytes
      → arguments.to_vec args ≡ some arg_bytes
      → receive_both (frame cmd_bytes ++ (frame cmd_bytes ++ frame arg_bytes))
        ≡ (ok (cmd, cmd, args), [])
  receive_both-frames cmd args cmd_bytes arg_bytes cs ds c a =
      let small = cs.small cmd cmd_bytes c in
      let decoded = cs.decodes cmd cmd_bytes c in
      let last =
        receive_from_stream-frame arguments arg_bytes [] args (ds.small args arg_bytes a)
          (ds.decodes args arg_bytes a) in
      rw (
        receive_from_stream-frame commands cmd_bytes (frame cmd_bytes ++ frame arg_bytes) cmd small
            decoded,
        receive_from_stream-frame commands cmd_bytes (frame arg_bytes) cmd small decoded,
        rw append-nil at last,
      )

  -- Where what the encodings write is shorter than 2 ^ 64 bytes and is decoded to what was encoded, a
  -- command that was sent with its arguments, without an error, on a fresh socket is received by both
  -- readers, with its arguments, and nothing is left on the socket.
  pub receive-send :
      (cmd : C) (args : A) (s : Sink)
      → IsFaithful commands
      → IsFaithful arguments
      → s.written ≡ []
      → (enclave_proc_command_send_single commands arguments cmd (some args) s).0 ≡ ok tt
      → receive_both
          (enclave_proc_command_send_single commands arguments cmd (some args) s).1.written
        ≡ (ok (cmd, cmd, args), [])
  receive-send cmd args s cs ds fresh h =
      let (cmd_bytes, arg_bytes, c, a, e) = send_writes cmd args s h in
      let frames : s.written ++ frame cmd_bytes ++ frame cmd_bytes ++ frame arg_bytes
          ≡ frame cmd_bytes ++ (frame cmd_bytes ++ frame arg_bytes) =
        rw fresh (append_assoc (frame cmd_bytes) (frame cmd_bytes) (frame arg_bytes)) in
      ap receive_both (e ∙ frames) ∙ receive_both-frames cmd args cmd_bytes arg_bytes cs ds c a
