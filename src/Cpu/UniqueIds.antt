-- ===== src/Cpu/UniqueIds.antt =====
-- The `BTreeSet` of CPU IDs that `CpuInfo::check_cpu_ids` builds of a list, and when it is as long as
-- the list.
use aws_nitro_enclaves_cli.Common.{
  ℕ, suc, ◌+◌, ◌≤◌, ◌≡◌, refl, Bool, true, false, ◌||◌, List, [], ◌∷◌, arith, ltb, ◌==◌,
  if◌then◌else◌, length,
}

unfoldable pub contains : List ℕ → ℕ → Bool
contains [] a = false
contains (x ∷ xs) a = x == a || contains xs a

-- A `BTreeSet` is its items in ascending order, each once.
unfoldable pub place : ℕ → List ℕ → List ℕ
place a [] = a ∷ []
place a (x ∷ xs) = if ltb a x then a ∷ x ∷ xs else x ∷ place a xs

unfoldable pub set_insert : ℕ → List ℕ → List ℕ
set_insert a xs = if contains xs a then xs else place a xs

unfoldable pub insert_all : List ℕ → List ℕ → List ℕ
insert_all unique_ids [] = unique_ids
insert_all unique_ids (id ∷ ids) = insert_all (set_insert id unique_ids) ids

-- No ID stands twice in a list.
abbrev pub Distinct : List ℕ → Type 0
Distinct [] = Unit
Distinct (x ∷ xs) = (contains xs x ≡ false) × Distinct xs

-- No ID of the second list stands in the first.
abbrev pub Apart : List ℕ → List ℕ → Type 0
Apart xs ids = (a : ℕ) → contains ids a ≡ true → contains xs a ≡ false

contains-place : (a b : ℕ) (xs : List ℕ) → contains (place a xs) b ≡ (a == b || contains xs b)
unfolding contains place
contains-place a b [] = refl
contains-place a b (x ∷ xs) = ground (arith, contains-place a b xs)

length-place : (a : ℕ) (xs : List ℕ) → length (place a xs) ≡ suc (length xs)
unfolding place
length-place a [] = refl
length-place a (x ∷ xs) = ground (arith, length-place a xs)

contains-set_insert :
    (a b : ℕ) (xs : List ℕ) → contains (set_insert a xs) b ≡ (a == b || contains xs b)
unfolding set_insert
contains-set_insert a b xs = ground (arith, contains-place a b xs)

length-set_insert :
    (a : ℕ) (xs : List ℕ)
    → length (set_insert a xs) ≡ (if contains xs a then length xs else suc (length xs))
unfolding set_insert
length-set_insert a xs = ground (arith, length-place a xs)

pub contains-insert_all :
    (b : ℕ) (xs ids : List ℕ) → contains (insert_all xs ids) b ≡ (contains xs b || contains ids b)
unfolding insert_all contains
contains-insert_all b xs [] = ground arith
contains-insert_all b xs (id ∷ ids) =
    ground (arith, contains-insert_all b (set_insert id xs) ids, contains-set_insert id b xs)

length-insert_all-le : (xs ids : List ℕ) → length (insert_all xs ids) ≤ length xs + length ids
unfolding insert_all
length-insert_all-le xs [] = omega arith
length-insert_all-le xs (id ∷ ids) =
    ground (arith, length-insert_all-le (set_insert id xs) ids, length-set_insert id xs)

-- The set is as long as the list exactly if no ID is met twice.
pub length-insert_all :
    (xs ids : List ℕ)
    → Distinct ids
    → Apart xs ids
    → length (insert_all xs ids) ≡ length xs + length ids
unfolding insert_all contains
length-insert_all xs [] d apart = omega arith
length-insert_all xs (id ∷ ids) d apart =
    ground
      (arith, apart id, length-set_insert id xs, length-insert_all (set_insert id xs) ids d.1 rest)
  where
    rest : Apart (set_insert id xs) ids
    rest a h = ground (arith, apart a, contains-set_insert id a xs)

pub Distinct-of_length :
    (xs ids : List ℕ)
    → length xs + length ids ≤ length (insert_all xs ids)
    → Distinct ids × Apart xs ids
unfolding insert_all contains
Distinct-of_length xs [] h = (tt, λ a e. cc)
Distinct-of_length xs (id ∷ ids) h =
    let ih =
      Distinct-of_length (set_insert id xs) ids
        (ground (arith, length-set_insert id xs, length-insert_all-le (set_insert id xs) ids)) in
    (
      (ground (arith, ih.1 id, contains-set_insert id id xs), ih.0),
      λ a e. ground (arith, new, ih.1 a, contains-set_insert id a xs),
    )
  where
    new : contains xs id ≡ false
    new = ground (arith, length-set_insert id xs, length-insert_all-le (set_insert id xs) ids)
