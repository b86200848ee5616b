-- ===== src/Image/Round.antt =====
-- One round of the loop of `write_eif_to_regions`, branch by branch.
use aws_nitro_enclaves_cli.Common.{
  ℕ, ◌+◌, ◌-◌, ◌^◌, ◌≤◌, ◌<◌, min, ◌≡◌, refl, none, List, [], ◌∷◌, ◌++◌, arith, All, length, take,
  drop, length-take, length-append,
}
use aws_nitro_enclaves_cli.Failure.{NitroCliResult, ok}
use aws_nitro_enclaves_cli.Image.{
  EifFile, Mapping, write_at, read_exact, fill_from_file, write_regions,
}

-- The memory of all the regions, one behind the other.
unfoldable pub memory : List Mapping → List ℕ
memory [] = []
memory (m ∷ ms) = m.bytes ++ memory ms

unfoldable pub capacity : List Mapping → ℕ
capacity [] = 0
capacity (m ∷ ms) = m.region.mem_size + capacity ms

-- The bytes of a mapping are those of its region.
abbrev pub IsBacked : Mapping → Type 0
IsBacked m = length m.bytes ≡ m.region.mem_size

pub length-memory : (ms : List Mapping) → All IsBacked ms → length (memory ms) ≡ capacity ms
unfolding memory capacity
length-memory [] backed = refl
length-memory (m ∷ ms) backed =
    omega (arith, backed.0, length-append m.bytes (memory ms), length-memory ms backed.1)

-- `fill_from_file` of a range that lies in the region and in the rest of the file.
pub fill_from_file-ok :
    (m : Mapping) (file : EifFile) (region_offset size : ℕ)
    → file.fault file.position ≡ none
    → region_offset + size ≤ m.region.mem_size
    → m.region.mem_size < 2 ^ 64
    → size ≤ length (drop file.position file.content)
    → fill_from_file m file region_offset size ≡ (
      ok tt,
      record m {
        bytes = write_at region_offset (take size (drop file.position file.content)) m.bytes;
      },
      record file { position = file.position + size },
    )
unfolding fill_from_file read_exact
fill_from_file-ok m file region_offset size no_fault inside small left =
    ground (arith, length-take size (drop file.position file.content))

abbrev pub Outcome : Type 0
Outcome = NitroCliResult (Unit {0}) × List Mapping × EifFile

abbrev pub behind : Mapping → Outcome → Outcome
behind m (result, ms, file) = (result, m ∷ ms, file)

-- The branches of one round.
module _ (size offset total_written : ℕ) (m : Mapping) (ms : List Mapping) (file : EifFile) where
  pub round_stop :
      size + offset < 2 ^ 64
      → size + offset ≤ total_written
      → write_regions size offset total_written (m ∷ ms) file ≡ (ok tt, m ∷ ms, file)
  unfolding write_regions
  round_stop small all_written = ground arith

  pub round_skip :
      size + offset < 2 ^ 64
      → total_written < size + offset
      → total_written + m.region.mem_size ≤ offset
      → write_regions size offset total_written (m ∷ ms) file
        ≡ behind m (write_regions size offset (total_written + m.region.mem_size) ms file)
  unfolding write_regions
  round_skip small more before = ground arith

  pub round_fill :
      (m' : Mapping) (file' : EifFile)
      → size + offset < 2 ^ 64
      → total_written < size + offset
      → offset < total_written + m.region.mem_size
      → total_written + m.region.mem_size < 2 ^ 64
      → fill_from_file m file
          (offset - total_written)
          (min (m.region.mem_size - (offset - total_written)) (size - (total_written - offset)))
        ≡ (ok tt, m', file')
      → write_regions size offset total_written (m ∷ ms) file
        ≡ behind m' (write_regions size offset (total_written + m.region.mem_size) ms file')
  unfolding write_regions
  round_fill m' file' small more here fits filled = ground arith
