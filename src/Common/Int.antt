-- ===== src/Common/Int.antt =====
-- Signed 64-bit counters: the integers over the native numbers, subtraction, and the cast of an
-- unsigned 64-bit value. Proofs read an integer through its two parts.
use Prim.Native.Nat.{ℕ, suc, ◌+◌, ◌-◌, ◌^◌, ◌<◌}
use mathlib.Core.Path.{◌≡◌}
use mathlib.Core.Bool.{Bool}
use native.Mathlib.Omega.{arith}
use aws_nitro_enclaves_cli.Common.Tests.{ltb, leb, if◌then◌else◌}

-- `negsuc n` is -(n + 1).
pub data ℤ : Type 0 where
  pos : ℕ → ℤ
  negsuc : ℕ → ℤ

abbrev pub pos_part : ℤ → ℕ
pos_part (pos n) = n
pos_part (negsuc n) = 0

abbrev pub neg_part : ℤ → ℕ
neg_part (pos n) = 0
neg_part (negsuc n) = suc n

abbrev pub sub_ℕ : ℕ → ℕ → ℤ
sub_ℕ a b = if leb b a then pos (a - b) else negsuc (b - a - 1)

infixl 65 ◌-ℤ◌
unfoldable pub ◌-ℤ◌ : ℤ → ℤ → ℤ
a -ℤ b = sub_ℕ (pos_part a + neg_part b) (neg_part a + pos_part b)

-- a < b and a ≤ b
abbrev pub ltb_ℤ : ℤ → ℤ → Bool
ltb_ℤ a b = ltb (pos_part a + neg_part b) (pos_part b + neg_part a)

abbrev pub leb_ℤ : ℤ → ℤ → Bool
leb_ℤ a b = leb (pos_part a + neg_part b) (pos_part b + neg_part a)

-- `n as i64`, for n below 2 ^ 64
abbrev pub as_i64 : ℕ → ℤ
as_i64 n = if ltb n (2 ^ 63) then pos n else negsuc (2 ^ 64 - n - 1)

-- `n as i32`, for n below 2 ^ 32
abbrev pub as_i32 : ℕ → ℤ
as_i32 n = if ltb n (2 ^ 31) then pos n else negsuc (2 ^ 32 - n - 1)

pub -ℤ_parts :
    (a b : ℤ)
    → pos_part (a -ℤ b) + neg_part a + pos_part b ≡ neg_part (a -ℤ b) + pos_part a + neg_part b
unfolding ◌-ℤ◌
-ℤ_parts a b = ground arith

-- A positive integer falls when a positive number is taken off.
pub -ℤ-lt : (a : ℤ) (n : ℕ) → 0 < pos_part a → 0 < n → pos_part (a -ℤ pos n) < pos_part a
unfolding ◌-ℤ◌
-ℤ-lt a n h k = ground arith

pub -ℤ-pos_part : (a : ℤ) (n : ℕ) → 0 < pos_part a → pos_part (a -ℤ pos n) ≡ pos_part a - n
unfolding ◌-ℤ◌
-ℤ-pos_part a n h = ground arith

-- One of the two parts is 0.
pub parts_disjoint : (a : ℤ) → 0 < pos_part a → neg_part a ≡ 0
parts_disjoint a h = ground arith

pub as_i64-pos_part : (n : ℕ) → n < 2 ^ 63 → pos_part (as_i64 n) ≡ n
as_i64-pos_part n h = ground arith

pub as_i64-neg_part : (n : ℕ) → n < 2 ^ 63 → neg_part (as_i64 n) ≡ 0
as_i64-neg_part n h = ground arith

pub ruleset int_laws = (arith, -ℤ_parts, parts_disjoint)
