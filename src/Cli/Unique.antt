-- ===== src/Cli/Unique.antt =====
-- The name of a new enclave is found, and no other enclave has it.
use aws_nitro_enclaves_cli.Common.{
  ℕ, zero, suc, ◌+◌, ◌≤◌, ◌<◌, ◌≡◌, refl, sym, ap, ◌∙◌, ◌≢◌, ◌⊎◌, inl, inr, true, false, Bool-cases,
  Option, some, List, [], ◌∷◌, ◌++◌, arith, length, length-append, ltb, ltb→lt,
}
use aws_nitro_enclaves_cli.Text.{
  same_text, same_text_iff, to_string, parse_number, parse_number-to_string,
}
use aws_nitro_enclaves_cli.Cli.Names.{contains, base_name, indexed, next_name, new_enclave_name}

-- The texts of a family differ, up to an index.
abbrev AreDifferent : ℕ → (ℕ → List ℕ) → Type 0
AreDifferent last f = (i j : ℕ) → i ≤ last → j ≤ last → f i ≡ f j → i ≡ j

-- The family without the text `x`, in whose place the last member stands.
abbrev without : List ℕ → ℕ → (ℕ → List ℕ) → ℕ → List ℕ
without x last f i = elim (same_text x (f i)) [ true ↦ f last | false ↦ f i ]

without-cases :
    (x : List ℕ) (last : ℕ) (f : ℕ → List ℕ) (i : ℕ)
    → ((x ≡ f i) × (without x last f i ≡ f last)) ⊎ ((x ≢ f i) × (without x last f i ≡ f i))
without-cases x last f i = elim (Bool-cases (same_text x (f i))) [
  | inl e ↦ inl ((same_text_iff x (f i)).0 e, rw (e, without) refl)
  | inr e ↦ inr ((λ h. ground (arith, (same_text_iff x (f i)).1 h)), rw (e, without) refl)
]

without-AreDifferent :
    (x : List ℕ) (last : ℕ) (f : ℕ → List ℕ)
    → AreDifferent (suc last) f
    → AreDifferent last (without x (suc last) f)
without-AreDifferent x last f different i j small small' same =
    elim (without-cases x (suc last) f i) [
      | inl (at, e) ↦ elim (without-cases x (suc last) f j) [
        | inl (at', e') ↦ different i j (omega arith) (omega arith) (sym at ∙ at')
        | inr (not_at, e') ↦
            absurd (
              omega (arith, different (suc last) j (omega arith) (omega arith) (sym e ∙ same ∙ e')))
      ]
      | inr (not_at, e) ↦ elim (without-cases x (suc last) f j) [
        | inl (at', e') ↦
            absurd (
              omega (arith, different i (suc last) (omega arith) (omega arith) (sym e ∙ same ∙ e')))
        | inr (not_at', e') ↦ different i j (omega arith) (omega arith) (sym e ∙ same ∙ e')
      ]
    ]

contains-tail :
    (x : List ℕ) (names : List (List ℕ)) (name : List ℕ)
    → contains (x ∷ names) name ≡ true
    → x ≢ name
    → contains names name ≡ true
unfolding contains
contains-tail x names name h other = ground (arith, same_text_iff x name)

without-contained :
    (x : List ℕ) (names : List (List ℕ)) (last : ℕ) (f : ℕ → List ℕ)
    → AreDifferent (suc last) f
    → ((i : ℕ) → i ≤ suc last → contains (x ∷ names) (f i) ≡ true)
    → (i : ℕ) → i ≤ last
    → contains names (without x (suc last) f i) ≡ true
without-contained x names last f different inside i small = elim (without-cases x (suc last) f i) [
  | inl (at, e) ↦
      ap (contains names) e
      ∙ contains-tail x names (f (suc last)) (inside (suc last) (omega arith)) (λ h.
        absurd (omega (arith, different i (suc last) (omega arith) (omega arith) (sym at ∙ h))))
  | inr (not_at, e) ↦
      ap (contains names) e ∙ contains-tail x names (f i) (inside i (omega arith)) not_at
]

-- A list does not hold more different texts than it has members.
not_all_contained :
    (names : List (List ℕ)) (f : ℕ → List ℕ)
    → AreDifferent (length names) f
    → ¬ ((i : ℕ) → i ≤ length names → contains names (f i) ≡ true)
not_all_contained [] f different inside = unfold contains in ground (arith, inside 0)
not_all_contained (x ∷ names) f different inside =
    not_all_contained names (without x (suc (length names)) f)
      (without-AreDifferent x (length names) f different)
      (without-contained x names (length names) f different inside)

-- Two printed numbers are one only if the numbers are.
to_string-injective : (a b : ℕ) → to_string a ≡ to_string b → a ≡ b
to_string-injective a b h =
    let read : some a ≡ some b =
      sym (parse_number-to_string (suc (a + b)) a (omega arith))
      ∙ ap (parse_number (suc (a + b))) h
      ∙ parse_number-to_string (suc (a + b)) b (omega arith) in
    ground arith

append-cancel : (a b c : List ℕ) → a ++ b ≡ a ++ c → b ≡ c
append-cancel [] b c h = h
append-cancel (x ∷ a) b c h = append-cancel a b c (ground arith)

-- The names that the loop tries.
abbrev pub name_at : List ℕ → ℕ → List ℕ
name_at enclave_name zero = enclave_name
name_at enclave_name (suc idx) = indexed enclave_name (suc idx)

append-ne : (a : List ℕ) (c : ℕ) (b : List ℕ) → a ++ c ∷ b ≢ a
append-ne a c b h = let e = ap length h in absurd (omega (arith, e, length-append a (c ∷ b)))

name_at-AreDifferent : (enclave_name : List ℕ) (last : ℕ) → AreDifferent last (name_at enclave_name)
name_at-AreDifferent n last zero zero small small' same = refl
name_at-AreDifferent n last zero (suc j) small small' same =
    absurd (append-ne n b'_' (to_string (suc j)) (sym same))
name_at-AreDifferent n last (suc i) zero small small' same =
    absurd (append-ne n b'_' (to_string (suc i)) same)
name_at-AreDifferent n last (suc i) (suc j) small small' same =
    to_string-injective (suc i) (suc j)
      (tail-eq (append-cancel n (b'_' ∷ to_string (suc i)) (b'_' ∷ to_string (suc j)) same))
  where
    tail-eq : {c : ℕ} {a b : List ℕ} → c ∷ a ≡ c ∷ b → a ≡ b
    tail-eq h = ground arith

-- A name from an index on is the one at the index or one behind it.
from_next :
    (names : List (List ℕ)) (n : List ℕ) (idx i : ℕ)
    → contains names (name_at n idx) ≡ true
    → idx ≤ i
    → (suc idx ≤ i → contains names (name_at n i) ≡ true)
    → contains names (name_at n i) ≡ true
from_next names n idx i taken low later = elim (Bool-cases (ltb idx i)) [
  | inl above ↦ later (ltb→lt idx i above)
  | inr same ↦ let e : i ≡ idx = ground arith in ap (λ k. contains names (name_at n k)) e ∙ taken
]

-- The loop from an index on finds a name that is free, or all names up to the fuel are taken.
next_name-cases :
    (names : List (List ℕ)) (enclave_name : List ℕ) (fuel idx : ℕ)
    → ((place : ℕ) × (next_name names enclave_name fuel idx (name_at enclave_name idx)
          ≡ some (name_at enclave_name place))
        × (contains names (name_at enclave_name place) ≡ false)
        × ((i : ℕ) → idx ≤ i → i < place → contains names (name_at enclave_name i) ≡ true))
      ⊎ ((i : ℕ) → idx ≤ i → i < idx + fuel → contains names (name_at enclave_name i) ≡ true)
unfolding next_name
next_name-cases names n zero idx = inr (λ i low high. absurd (omega arith))
next_name-cases names n (suc fuel) idx = elim (Bool-cases (contains names (name_at n idx))) [
  | inr free ↦ inl (idx, rw free refl, free, λ i low high. absurd (omega arith))
  | inl taken ↦ elim (next_name-cases names n fuel (suc idx)) [
    | inl (place, found, free, before) ↦
        let e : idx + 1 ≡ suc idx = omega arith in
        inl (
          place,
          rw (taken, e) found,
          free,
          λ i low high. from_next names n idx i taken low (λ above. before i above high),
        )
    | inr all ↦
        inr (λ i low high. from_next names n idx i taken low (λ above. all i above (omega arith)))
  ]
]

-- The fuel of `new_enclave_name` is enough: it gives a name, no enclave has this name, and it is the
-- first that is free of the name asked for, or the one of the image, and this name with the indices
-- from 1 on.
pub new_enclave_name-free :
    (eif_path : List ℕ) (enclave_name : Option (List ℕ)) (names : List (List ℕ))
    → (idx : ℕ) × (new_enclave_name eif_path enclave_name names
        ≡ some (name_at (base_name eif_path enclave_name) idx))
      × (contains names (name_at (base_name eif_path enclave_name) idx) ≡ false)
      × ((i : ℕ) → i < idx → contains names (name_at (base_name eif_path enclave_name) i) ≡ true)
unfolding new_enclave_name
new_enclave_name-free eif_path enclave_name names =
    let base = base_name eif_path enclave_name in
    elim (next_name-cases names base (suc (length names)) 0) [
      | inl (place, found, free, before) ↦
          (place, found, free, λ i small. before i (omega arith) small)
      | inr all ↦ absurd (
          not_all_contained names (name_at base) (name_at-AreDifferent base (length names))
            (λ i small. all i (omega arith) (omega arith)))
    ]
