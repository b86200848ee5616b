-- ===== src/Executer/Utf8.antt =====
-- `std::str::from_utf8`: a text is its bytes.
use aws_nitro_enclaves_cli.Common.{
  ℕ, Bool, true, false, ◌&&◌, ◌||◌, Option, none, some, List, [], ◌∷◌, leb, ◌==◌, if◌then◌else◌,
}

-- The least and the greatest byte that may come next.
abbrev Range : Type 0
Range = ℕ × ℕ

abbrev within : Range → ℕ → Bool
within (least, greatest) byte = leb least byte && leb byte greatest

abbrev tail : Range
tail = (0x80, 0xbf)

-- The bytes that must follow a first byte, where it may be one.
abbrev following : ℕ → Option (List Range)
following byte =
    if leb byte 0x7f
    then some []
    else if within (0xc2, 0xdf) byte
    then some (tail ∷ [])
    else if byte == 0xe0
    then some ((0xa0, 0xbf) ∷ tail ∷ [])
    else if within (0xe1, 0xec) byte || within (0xee, 0xef) byte
    then some (tail ∷ tail ∷ [])
    else if byte == 0xed
    then some ((0x80, 0x9f) ∷ tail ∷ [])
    else if byte == 0xf0
    then some ((0x90, 0xbf) ∷ tail ∷ tail ∷ [])
    else if within (0xf1, 0xf3) byte
    then some (tail ∷ tail ∷ tail ∷ [])
    else if byte == 0xf4
    then some ((0x80, 0x8f) ∷ tail ∷ tail ∷ [])
    else none

-- The bytes are the rest of a character, of which the given ranges are left, and whole characters.
unfoldable pub is_utf8_from : List Range → List ℕ → Bool
is_utf8_from [] [] = true
is_utf8_from (range ∷ ranges) [] = false
is_utf8_from (range ∷ ranges) (byte ∷ bytes) = within range byte && is_utf8_from ranges bytes
is_utf8_from [] (byte ∷ bytes) = elim (following byte) [
  | none ↦ false
  | some ranges ↦ is_utf8_from ranges bytes
]

unfoldable pub is_utf8 : List ℕ → Bool
is_utf8 bytes = is_utf8_from [] bytes
