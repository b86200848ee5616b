-- ===== src/Cli/Names.antt =====
-- src/lib.rs: `new_enclave_name`, the name of a new enclave that no other has. The path and the name
-- of the request are texts.
use aws_nitro_enclaves_cli.Common.{
  ℕ, zero, suc, ◌+◌, ◌==◌, Bool, true, false, ◌&&◌, ◌||◌, Option, none, some, List, [], ◌∷◌, ◌++◌,
  length, if◌then◌else◌,
}
use aws_nitro_enclaves_cli.Text.{same_text, split, to_string}

unfoldable pub contains : List (List ℕ) → List ℕ → Bool
unfolding same_text
contains [] name = false
contains (n ∷ names) name = same_text n name || contains names name

-- The text is ".eif" any number of times.
unfoldable pub is_eifs : List ℕ → Bool
is_eifs [] = true
is_eifs (a ∷ b ∷ c ∷ d ∷ rest) = a == b'.' && b == b'e' && c == b'i' && d == b'f' && is_eifs rest
is_eifs _ = false

-- `trim_end_matches(".eif")`
unfoldable pub trim_eif : List ℕ → List ℕ
unfolding is_eifs
trim_eif [] = []
trim_eif (c ∷ cs) = if is_eifs (c ∷ cs) then [] else c ∷ trim_eif cs

unfoldable pub last_of : List (List ℕ) → List ℕ
last_of [] = []
last_of (piece ∷ []) = piece
last_of (piece ∷ pieces) = last_of pieces

abbrev pub base_name : List ℕ → Option (List ℕ) → List ℕ
base_name eif_path none = trim_eif (last_of (split b'/' eif_path))
base_name eif_path (some enclave_name) = enclave_name

-- The name with an underscore and the index.
abbrev pub indexed : List ℕ → ℕ → List ℕ
indexed enclave_name idx = enclave_name ++ b'_' ∷ to_string idx

-- The `while` loop; `none` is the end of the fuel.
unfoldable pub next_name : List (List ℕ) → List ℕ → ℕ → ℕ → List ℕ → Option (List ℕ)
unfolding contains
next_name names enclave_name zero idx result_name = none
next_name names enclave_name (suc fuel) idx result_name =
    let rest = next_name names enclave_name fuel (idx + 1) (indexed enclave_name (idx + 1)) in
    if contains names result_name then rest else some result_name

-- One round more than there are names is enough.
unfoldable pub new_enclave_name : List ℕ → Option (List ℕ) → List (List ℕ) → Option (List ℕ)
unfolding next_name trim_eif last_of
new_enclave_name eif_path enclave_name names =
    let base = base_name eif_path enclave_name in next_name names base (suc (length names)) 0 base
