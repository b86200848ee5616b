-- ===== src/Image/Bytes.antt =====
-- Bytes written at an offset, over the pieces of a memory.
use aws_nitro_enclaves_cli.Common.{
  ℕ, zero, suc, ◌+◌, ◌-◌, ◌≤◌, min, ◌≡◌, refl, ap, List, [], ◌∷◌, ◌++◌, arith, length, take, drop,
}
use aws_nitro_enclaves_cli.Image.{write_at}

pub take-nil {ℓ} : {A : Type ℓ} (n : ℕ) → take {A = A} n [] ≡ []
take-nil zero = refl
take-nil (suc n) = refl

pub drop-nil {ℓ} : {A : Type ℓ} (n : ℕ) → drop {A = A} n [] ≡ []
drop-nil zero = refl
drop-nil (suc n) = refl

pub write_at-nil : (offset : ℕ) (bytes : List ℕ) → write_at offset [] bytes ≡ bytes
unfolding write_at
write_at-nil offset [] = refl
write_at-nil zero (b ∷ bytes) = refl
write_at-nil (suc offset) (b ∷ bytes) = ap (λ t. b ∷ t) (write_at-nil offset bytes)

length-write_at :
    (offset : ℕ) (source bytes : List ℕ) → length (write_at offset source bytes) ≡ length bytes
unfolding write_at
length-write_at offset source [] = refl
length-write_at zero [] (b ∷ bytes) = refl
length-write_at zero (s ∷ source) (b ∷ bytes) = ap suc (length-write_at zero source bytes)
length-write_at (suc offset) source (b ∷ bytes) = ap suc (length-write_at offset source bytes)

-- A write over two pieces is a write to each.
pub write_at-append :
    (offset : ℕ) (source front back : List ℕ)
    → write_at offset source (front ++ back)
      ≡ write_at offset (take (length front - offset) source) front
        ++ write_at (offset - length front) (drop (length front - offset) source) back
unfolding write_at
write_at-append offset source [] back =
    let e : 0 - offset ≡ 0 = omega arith in let e' : offset - 0 ≡ offset = omega arith in rw (e, e')
write_at-append zero [] (b ∷ front) back = rw (
  take-nil {A = ℕ} (suc (length front) - 0),
  drop-nil {A = ℕ} (suc (length front) - 0),
  write_at-nil (0 - suc (length front)) back,
)
write_at-append zero (s ∷ source) (b ∷ front) back =
    let e : suc (length front) - 0 ≡ suc (length front) = omega arith in
    let e' : length front - 0 ≡ length front = omega arith in
    let z : 0 - suc (length front) ≡ 0 - length front = omega arith in
    rw (e, z) (ap (λ t. s ∷ t) (rw e' at (write_at-append zero source front back)))
write_at-append (suc offset) source (b ∷ front) back =
    let e : suc (length front) - suc offset ≡ length front - offset = omega arith in
    let z : suc offset - suc (length front) ≡ offset - length front = omega arith in
    rw (e, z) (ap (λ t. b ∷ t) (write_at-append offset source front back))

pub drop-drop {ℓ} : {A : Type ℓ} (n m : ℕ) (xs : List A) → drop n (drop m xs) ≡ drop (m + n) xs
drop-drop n zero xs = let e : 0 + n ≡ n = omega arith in rw e
drop-drop {A} n (suc m) [] = rw (drop-nil {A = A} n, drop-nil {A = A} (suc m + n))
drop-drop n (suc m) (x ∷ xs) =
    let e : suc m + n ≡ suc (m + n) = omega arith in rw e (drop-drop n m xs)

-- Past the end nothing is left.
pub drop-length_le {ℓ} : {A : Type ℓ} (n : ℕ) (xs : List A) → length xs ≤ n → drop n xs ≡ []
drop-length_le zero [] h = refl
drop-length_le (suc n) [] h = refl
drop-length_le zero (x ∷ xs) h = absurd (omega arith)
drop-length_le (suc n) (x ∷ xs) h = drop-length_le n xs (omega arith)

pub take-length_le {ℓ} : {A : Type ℓ} (n : ℕ) (xs : List A) → length xs ≤ n → take n xs ≡ xs
take-length_le zero [] h = refl
take-length_le (suc n) [] h = refl
take-length_le zero (x ∷ xs) h = absurd (omega arith)
take-length_le (suc n) (x ∷ xs) h = ap (λ t. x ∷ t) (take-length_le n xs (omega arith))

-- A cut at the length is no further cut.
pub take-min {ℓ} : {A : Type ℓ} (n : ℕ) (xs : List A) → take (min n (length xs)) xs ≡ take n xs
take-min zero xs = let e : min 0 (length xs) ≡ 0 = omega arith in rw e
take-min (suc n) [] = rw (take-nil (min (suc n) 0))
take-min (suc n) (x ∷ xs) =
    let e : min (suc n) (suc (length xs)) ≡ suc (min n (length xs)) = omega arith in
    rw e (ap (λ t. x ∷ t) (take-min n xs))

pub drop-min {ℓ} : {A : Type ℓ} (n : ℕ) (xs : List A) → drop (min n (length xs)) xs ≡ drop n xs
drop-min zero xs = let e : min 0 (length xs) ≡ 0 = omega arith in rw e
drop-min (suc n) [] = rw (drop-nil (min (suc n) 0))
drop-min (suc n) (x ∷ xs) =
    let e : min (suc n) (suc (length xs)) ≡ suc (min n (length xs)) = omega arith in
    rw e (drop-min n xs)

-- What was written inside the memory is read back.
pub read_back-write_at :
    (offset : ℕ) (source bytes : List ℕ)
    → length source + offset ≤ length bytes
    → take (length source) (drop offset (write_at offset source bytes)) ≡ source
unfolding write_at
read_back-write_at zero [] bytes h = refl
read_back-write_at (suc offset) [] bytes h = refl
read_back-write_at offset (s ∷ source) [] h = absurd (omega arith)
read_back-write_at zero (s ∷ source) (b ∷ bytes) h =
    ap (λ t. s ∷ t) (read_back-write_at zero source bytes (omega arith))
read_back-write_at (suc offset) (s ∷ source) (b ∷ bytes) h =
    read_back-write_at offset (s ∷ source) bytes (omega arith)
