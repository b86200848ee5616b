-- ===== src/Text.antt =====
-- What the program uses of the standard library on text, a list of code points: `char::is_whitespace`, `split` at a
-- character, `parse::<u32>`, and `to_string` of a number, which is its inverse.
use aws_nitro_enclaves_cli.Common.{
  ◌↔◌, ℕ, zero, suc, ◌+◌, ◌-◌, ◌*◌, ◌/◌, ◌%◌, ◌^◌, ◌≤◌, ◌<◌, ◌≡◌, refl, ◌∙◌, ◌≢◌, ◌⊎◌, inl, inr,
  Bool, true, false, ◌&&◌, ◌||◌, Option, none, some, List, [], ◌∷◌, ◌++◌, arith, ltb, leb, ◌==◌,
  if◌then◌else◌, All, Bool-cases, ltb→lt,
}

-- The characters with the property White_Space.
unfoldable pub is_whitespace : ℕ → Bool
is_whitespace c =
    leb 9 c && leb c 13
    || c == 0x20
    || c == 0x85
    || c == 0xa0
    || c == 0x1680
    || leb 0x2000 c && leb c 0x200a
    || c == 0x2028
    || c == 0x2029
    || c == 0x202f
    || c == 0x205f
    || c == 0x3000

-- `retain(|c| !c.is_whitespace())`
unfoldable pub strip : List ℕ → List ℕ
unfolding is_whitespace
strip [] = []
strip (c ∷ cs) = if is_whitespace c then strip cs else c ∷ strip cs

-- `trim().is_empty()`
unfoldable pub is_blank : List ℕ → Bool
unfolding is_whitespace
is_blank [] = true
is_blank (c ∷ cs) = is_whitespace c && is_blank cs

abbrev push_front : ℕ → List (List ℕ) → List (List ℕ)
push_front c [] = (c ∷ []) ∷ []
push_front c (piece ∷ pieces) = (c ∷ piece) ∷ pieces

unfoldable pub split : ℕ → List ℕ → List (List ℕ)
split separator [] = [] ∷ []
split separator (c ∷ cs) =
    if c == separator then [] ∷ split separator cs else push_front c (split separator cs)

abbrev pub is_digit : ℕ → Bool
is_digit c = leb b'0' c && leb c b'9'

unfoldable pub parse_digits : ℕ → ℕ → List ℕ → Option ℕ
parse_digits limit n [] = some n
parse_digits limit n (c ∷ cs) =
    let rest = parse_digits limit (n * 10 + (c - b'0')) cs in
    if is_digit c && ltb (n * 10 + (c - b'0')) limit then rest else none

-- At least one digit, behind an optional plus sign.
abbrev parse_unsigned : ℕ → List ℕ → Option ℕ
parse_unsigned limit [] = none
parse_unsigned limit (c ∷ cs) = parse_digits limit 0 (c ∷ cs)

unfoldable pub parse_number : ℕ → List ℕ → Option ℕ
unfolding parse_digits
parse_number limit [] = none
parse_number limit (c ∷ cs) =
    if c == b'+' then parse_unsigned limit cs else parse_digits limit 0 (c ∷ cs)

abbrev pub parse_u32 : List ℕ → Option ℕ
parse_u32 = parse_number (2 ^ 32)

abbrev pub parse_u64 : List ℕ → Option ℕ
parse_u64 = parse_number (2 ^ 64)

-- The decimal digits of `n` in front of `rest`; fuel above `n` is enough.
unfoldable pub show_digits : ℕ → ℕ → List ℕ → List ℕ
show_digits zero n rest = rest
show_digits (suc fuel) n rest =
    let more = show_digits fuel (n / 10) ((b'0' + n % 10) ∷ rest) in
    if ltb n 10 then (b'0' + n) ∷ rest else more

unfoldable pub to_string : ℕ → List ℕ
unfolding show_digits
to_string n = show_digits (suc n) n []

-- A character of a printed number.
abbrev pub IsDigit : ℕ → Type 0
IsDigit c = (b'0' ≤ c) × (c ≤ b'9')

-- `n` is printed in front of `rest` as at least one digit.
show_digits-All :
    (fuel n : ℕ) (rest : List ℕ) → All IsDigit rest → All IsDigit (show_digits fuel n rest)
unfolding show_digits
show_digits-All zero n rest h = h
show_digits-All (suc fuel) n rest h =
    ground (arith, show_digits-All fuel (n / 10) ((b'0' + n % 10) ∷ rest))

parse_digits-digit :
    (limit n d : ℕ) (rest : List ℕ)
    → d < 10
    → n * 10 + d < limit
    → parse_digits limit n ((b'0' + d) ∷ rest) ≡ parse_digits limit (n * 10 + d) rest
unfolding parse_digits
parse_digits-digit limit n d rest h small =
    let e : b'0' + d - b'0' ≡ d = omega arith in rw e (ground arith)

parse_digits-show_digits :
    (limit fuel n : ℕ) (rest : List ℕ)
    → n < fuel
    → n < limit
    → parse_digits limit 0 (show_digits fuel n rest) ≡ parse_digits limit n rest
unfolding show_digits
parse_digits-show_digits limit zero n rest h small = absurd (omega arith)
parse_digits-show_digits limit (suc fuel) n rest h small = elim (Bool-cases (ltb n 10)) [
  | inl one ↦
      let e : 0 * 10 + n ≡ n = omega arith in
      rw one (rw e at (parse_digits-digit limit 0 n rest (ltb→lt n 10 one) (omega arith)))
  | inr more ↦
      let e : n / 10 * 10 + n % 10 ≡ n = omega arith in
      rw more (
        parse_digits-show_digits limit fuel (n / 10) ((b'0' + n % 10) ∷ rest) (ground arith)
          (omega arith)
        ∙ rw e at (parse_digits-digit limit (n / 10) (n % 10) rest (omega arith) (omega arith)))
]

pub to_string-All : (n : ℕ) → All IsDigit (to_string n)
unfolding to_string
to_string-All n = show_digits-All (suc n) n [] tt

parse_number-All :
    (limit : ℕ) (cs : List ℕ)
    → All IsDigit cs
    → cs ≢ []
    → parse_number limit cs ≡ parse_digits limit 0 cs
unfolding parse_number
parse_number-All limit [] h ne = absurd (ne refl)
parse_number-All limit (c ∷ cs) h ne = ground arith

show_digits-ne-nil : (fuel n : ℕ) (rest : List ℕ) → rest ≢ [] → show_digits fuel n rest ≢ []
unfolding show_digits
show_digits-ne-nil zero n rest h = h
show_digits-ne-nil (suc fuel) n rest h =
    ground (arith, show_digits-ne-nil fuel (n / 10) ((b'0' + n % 10) ∷ rest))

to_string-ne-nil : (n : ℕ) → to_string n ≢ []
unfolding to_string show_digits
to_string-ne-nil n = ground (arith, show_digits-ne-nil n (n / 10) ((b'0' + n % 10) ∷ []))

-- A number below the limit of its type is printed to a text that is parsed to it.
pub parse_number-to_string : (limit n : ℕ) → n < limit → parse_number limit (to_string n) ≡ some n
unfolding parse_digits
parse_number-to_string limit n small =
    parse_number-All limit (to_string n) (to_string-All n) (to_string-ne-nil n)
    ∙ (unfold to_string in parse_digits-show_digits limit (suc n) n [] (omega arith) small)

strip-All : (cs : List ℕ) → All IsDigit cs → strip cs ≡ cs
unfolding strip
strip-All [] h = refl
strip-All (c ∷ cs) h = ground (arith, strip-All cs h.1)

pub strip-to_string : (n : ℕ) → strip (to_string n) ≡ to_string n
strip-to_string n = strip-All (to_string n) (to_string-All n)

-- No character of a text is the separator.
abbrev pub IsFree : ℕ → List ℕ → Type 0
IsFree separator = All (λ c. (c == separator) ≡ false)

pub to_string-IsFree :
    (separator n : ℕ) → (separator < b'0') ⊎ (b'9' < separator) → IsFree separator (to_string n)
to_string-IsFree separator n h = go (to_string n) (to_string-All n)
  where
    go : (cs : List ℕ) → All IsDigit cs → IsFree separator cs
    go [] ds = tt
    go (c ∷ cs) ds = (ground arith, go cs ds.1)

pub split-IsFree :
    (separator : ℕ) (cs rest : List ℕ)
    → IsFree separator cs
    → split separator (cs ++ separator ∷ rest) ≡ cs ∷ split separator rest
unfolding split
split-IsFree separator [] rest h = ground arith
split-IsFree separator (c ∷ cs) rest h = ground (arith, split-IsFree separator cs rest h.1)

pub split-IsFree_end :
    (separator : ℕ) (cs : List ℕ) → IsFree separator cs → split separator cs ≡ cs ∷ []
unfolding split
split-IsFree_end separator [] h = refl
split-IsFree_end separator (c ∷ cs) h = ground (arith, split-IsFree_end separator cs h.1)

-- The comparison of two texts.
unfoldable pub same_text : List ℕ → List ℕ → Bool
same_text [] [] = true
same_text (c ∷ cs) (d ∷ ds) = c == d && same_text cs ds
same_text _ _ = false

pub same_text_iff : (a b : List ℕ) → (same_text a b ≡ true) ↔ (a ≡ b)
unfolding same_text
same_text_iff [] [] = ground arith
same_text_iff [] (d ∷ ds) = ground arith
same_text_iff (c ∷ cs) [] = ground arith
same_text_iff (c ∷ cs) (d ∷ ds) = ground (arith, same_text_iff cs ds)

-- `ends_with`
unfoldable pub ends_with : List ℕ → List ℕ → Bool
unfolding same_text
ends_with suffix [] = same_text suffix []
ends_with suffix (c ∷ cs) = same_text suffix (c ∷ cs) || ends_with suffix cs
