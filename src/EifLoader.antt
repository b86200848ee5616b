-- ===== src/EifLoader.antt =====
-- eif_loader/src/lib.rs: the wait for the heart beat of a booted enclave; and the timeout of that
-- wait, `calculate_necessary_timeout` of src/enclave_proc/resource_manager.rs.
mod Tests
use aws_nitro_enclaves_cli.Common.{
  ℕ, suc, ◌+◌, ◌-◌, ◌*◌, ◌/◌, ◌%◌, ◌^◌, ◌≤◌, ◌<◌, ◌≡◌, refl, ◌↔◌, Bool, true, false, ◌||◌, not,
  Option, none, some, arith, ltb, leb, ◌==◌, if◌then◌else◌,
}
use aws_nitro_enclaves_cli.Common.Int.{ℤ, pos, negsuc, as_i32, pos_part}
use aws_nitro_enclaves_cli.Memory.{gib}

abbrev pub timeout_second_ms : ℕ
timeout_second_ms = 1000

abbrev pub timeout_minute_ms : ℕ
timeout_minute_ms = 90 * timeout_second_ms

abbrev pub heart_beat : ℕ
heart_beat = 0xb7

pub data EifLoaderError : Type 0 where
  socket_polling_error vsock_accepting_error vsock_binding_error vsock_receiving_error
        vsock_timeout_error :
      EifLoaderError

-- What the system answers in `enclave_ready`: the number of ready descriptors that `poll` returns
-- (`none` for an error), whether a connection is accepted, the count of bytes read with the byte in
-- the buffer, and whether the byte is written back.
pub record BootAnswers : Type 0 where
  pub poll : Option ℕ
  pub accepts : Bool
  pub read : Option (ℕ × ℕ)
  pub writes : Bool

-- `none` is `Ok(())`.
abbrev beat : Option (ℕ × ℕ) → Bool → Option EifLoaderError
beat none writes = some vsock_receiving_error
beat (some (bytes, byte)) writes =
    if not (bytes == 1) || not (byte == heart_beat)
    then some vsock_receiving_error
    else if writes
    then none
    else some vsock_receiving_error

abbrev polled : Option ℕ → BootAnswers → Option EifLoaderError
polled none answers = some socket_polling_error
polled (some ready) answers =
    if ready == 0
    then some vsock_timeout_error
    else if not (ready == 1)
    then some socket_polling_error
    else if not answers.accepts
    then some vsock_accepting_error
    else beat answers.read answers.writes

unfoldable pub enclave_ready : BootAnswers → Option EifLoaderError
enclave_ready answers = polled answers.poll answers

-- `i32::saturating_mul` by a positive number.
abbrev saturating_mul : ℤ → ℕ → ℤ
saturating_mul (pos n) m = if ltb (n * m) (2 ^ 31) then pos (n * m) else pos (2 ^ 31 - 1)
saturating_mul (negsuc n) m =
    if leb (suc n * m) (2 ^ 31) then negsuc (suc n * m - 1) else negsuc (2 ^ 31 - 1)

-- `eif_size - 1` wraps around at 0, as in a build without overflow checks.
unfoldable pub calculate_necessary_timeout : ℕ → ℤ
calculate_necessary_timeout eif_size =
    saturating_mul (as_i32 ((1 + (eif_size + 2 ^ 64 - 1) % 2 ^ 64 / (6 * gib)) % 2 ^ 64 % 2 ^ 32))
      timeout_minute_ms

-- For an image of at least one byte and below 23860 * 6 GiB, the timeout is 90 s for each 6 GiB
-- begun.
calculate_necessary_timeout_lem :
    (eif_size : ℕ)
    → 0 < eif_size
    → eif_size ≤ 23860 * (6 * gib)
    → calculate_necessary_timeout eif_size
      ≡ pos ((eif_size + (6 * gib - 1)) / (6 * gib) * timeout_minute_ms)
unfolding calculate_necessary_timeout
calculate_necessary_timeout_lem eif_size some_byte small = ground arith

-- An empty image would wait without an end: its timeout is negative.
calculate_necessary_timeout_empty : calculate_necessary_timeout 0 ≡ negsuc (2 ^ 31 - 1)
unfolding calculate_necessary_timeout
calculate_necessary_timeout_empty = refl

-- The enclave is taken for booted exactly if one descriptor is ready, the connection is accepted,
-- the one byte read is the heart beat, and it is written back.
enclave_ready_iff :
    (answers : BootAnswers)
    → (enclave_ready answers ≡ none) ↔ (
        (answers.poll ≡ some 1)
        × (answers.accepts ≡ true)
        × (answers.read ≡ some (1, heart_beat))
        × (answers.writes ≡ true))
unfolding enclave_ready
enclave_ready_iff answers = ground arith
