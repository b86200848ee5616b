-- ===== src/Image/Write.antt =====
-- `write_eif_to_regions` puts the image at its offset in the memory of the regions, whatever their
-- sizes are.
use aws_nitro_enclaves_cli.Common.{
  ℕ, ◌+◌, ◌-◌, ◌^◌, ◌≤◌, ◌<◌, min, ◌≡◌, refl, sym, ◌∙◌, ap, true, none, List, [], ◌∷◌, ◌++◌, map,
  arith, All, length, take, drop, length-drop,
}
use native.Mathlib.Decide.{dec_le}
use mathlib.Core.Path.{ap₂}
use aws_nitro_enclaves_cli.Failure.{ok}
use aws_nitro_enclaves_cli.Image.{
  EifFile, Mapping, write_at, fill_from_file, write_regions, write_eif_to_regions,
}
use aws_nitro_enclaves_cli.Image.Round.{
  memory, capacity, length-memory, IsBacked, Outcome, behind, fill_from_file-ok, round_stop,
  round_skip, round_fill,
}
use aws_nitro_enclaves_cli.Image.Bytes.{
  read_back-write_at, write_at-nil, write_at-append, drop-drop, drop-length_le, take-min, drop-min,
}

-- What a success leaves: `target` in the memory, in the same regions.
pub record Written (target : List ℕ) (ms : List Mapping) (outcome : Outcome) : Type 0 where
  pub done : outcome.0 ≡ ok tt
  pub bytes : memory outcome.1 ≡ target
  pub regions : map (λ m. m.region) outcome.1 ≡ map (λ m. m.region) ms

behind-Written :
    (m m' : Mapping) (target : List ℕ) (ms : List Mapping) (outcome : Outcome)
    → m'.region ≡ m.region
    → Written target ms outcome
    → Written (m'.bytes ++ target) (m ∷ ms) (behind m' outcome)
unfolding memory
behind-Written m m' target ms outcome same w = record {
  done = w.done;
  bytes = ap (λ t. m'.bytes ++ t) w.bytes;
  regions = ap₂ (λ t ts. t ∷ ts) same w.regions;
}

module _ (offset : ℕ) where
  abbrev target : EifFile → ℕ → List Mapping → List ℕ
  target file total_written ms =
      write_at (offset - total_written) (drop (total_written - offset) file.content) (memory ms)

  -- The bytes of the image that are not written yet.
  abbrev left : EifFile → ℕ → List ℕ
  left file total_written = drop (total_written - offset) file.content

  module _ (file : EifFile) (total_written : ℕ) (m : Mapping) (ms : List Mapping) where
    abbrev start : ℕ
    start = offset - total_written

    abbrev count : ℕ
    count = min (m.region.mem_size - start) (length file.content - (total_written - offset))

    target-skip :
        IsBacked m
        → total_written + m.region.mem_size ≤ offset
        → target file total_written (m ∷ ms)
          ≡ m.bytes ++ target file (total_written + m.region.mem_size) ms
    unfolding memory
    target-skip backed before =
        let none_here : length m.bytes - start ≡ 0 = omega arith in
        let further : start - length m.bytes ≡ offset - (total_written + m.region.mem_size) =
          omega arith in
        let unread : total_written - offset ≡ 0 = omega arith in
        let unread' : total_written + m.region.mem_size - offset ≡ 0 = omega arith in
        write_at-append start (left file total_written) m.bytes (memory ms)
        ∙ rw (none_here, further, unread, unread', write_at-nil)

    left-next :
        offset < total_written + m.region.mem_size
        → drop (m.region.mem_size - start) (left file total_written)
          ≡ left file (total_written + m.region.mem_size)
    left-next here =
        let sum : total_written - offset + (m.region.mem_size - start)
            ≡ total_written + m.region.mem_size - offset =
          omega arith in
        rw (drop-drop, sum)

    count_lem : count ≡ min (m.region.mem_size - start) (length (left file total_written))
    count_lem = omega (arith, length-drop (total_written - offset) file.content)

    target-fill :
        IsBacked m
        → offset < total_written + m.region.mem_size
        → target file total_written (m ∷ ms)
          ≡ write_at start (take count (left file total_written)) m.bytes
            ++ target file (total_written + m.region.mem_size) ms
    unfolding memory
    target-fill backed here =
        let further : start - m.region.mem_size ≡ offset - (total_written + m.region.mem_size) =
          omega arith in
        write_at-append start (left file total_written) m.bytes (memory ms)
        ∙ rw (backed, further, left-next here, count_lem, take-min)

    position_next :
        (position : ℕ)
        → offset < total_written + m.region.mem_size
        → drop position file.content ≡ left file total_written
        → drop (position + count) file.content ≡ left file (total_written + m.region.mem_size)
    position_next position here at =
        sym (drop-drop count position file.content) ∙ rw (at, count_lem, drop-min) (left-next here)

  pub write_regions-Written :
      (ms : List Mapping) (total_written : ℕ) (file : EifFile)
      → All IsBacked ms
      → length file.content + offset < 2 ^ 64
      → total_written + capacity ms < 2 ^ 64
      → ((p : ℕ) → file.fault p ≡ none)
      → drop file.position file.content ≡ drop (total_written - offset) file.content
      → Written
          (target file total_written ms)
          ms
          (write_regions (length file.content) offset total_written ms file)
  write_regions-Written [] total_written file backed small fits no_fault at =
      unfold write_regions memory write_at in record { done = refl; bytes = refl; regions = refl }
  write_regions-Written (m ∷ ms) total_written file backed small fits no_fault at =
      elim (dec_le (length file.content + offset) total_written) [
        | yes all_written ↦
            rw (round_stop (length file.content) offset total_written m ms file small all_written) (
              rw (drop-length_le (total_written - offset) file.content (omega arith))
                (rw write_at-nil (record { done = refl; bytes = refl; regions = refl })))
        | no more ↦ elim (dec_le (total_written + m.region.mem_size) offset) [
          | yes before ↦
              rw
                (
                  round_skip (length file.content) offset total_written m ms file small
                      (omega arith) before,
                  target-skip file total_written m ms backed.0 before,
                )
                (behind-Written m m _ ms _ refl (
                  write_regions-Written ms (total_written + m.region.mem_size) file backed.1 small
                    (omega (arith, room)) no_fault
                    (let unread : total_written - offset ≡ 0 = omega arith in
                      let unread' : total_written + m.region.mem_size - offset ≡ 0 = omega arith in
                      rw unread' (rw unread at at))))
          | no here ↦
              rw
                (
                  round_fill (length file.content) offset total_written m ms file filled moved small
                      (omega arith) (omega arith) (omega (arith, room)) (reads here),
                  target-fill file total_written m ms backed.0 (omega arith),
                )
                (behind-Written m filled _ ms _ refl (
                  write_regions-Written ms (total_written + m.region.mem_size) moved backed.1 small
                    (omega (arith, room)) no_fault
                    (position_next file total_written m ms file.position (omega arith) at)))
        ]
      ]
    where
      room : capacity (m ∷ ms) ≡ m.region.mem_size + capacity ms
      room = unfold capacity in refl

      moved : EifFile
      moved = record file { position = file.position + count file total_written m ms }

      filled : Mapping
      filled = record m {
        bytes =
            write_at (offset - total_written)
              (take (count file total_written m ms) (left file total_written)) m.bytes;
      }

      reads :
          ¬ (total_written + m.region.mem_size ≤ offset)
          → fill_from_file m file (offset - total_written) (count file total_written m ms)
            ≡ (ok tt, filled, moved)
      reads inside = rw at at (
          fill_from_file-ok m file (offset - total_written) (count file total_written m ms)
            (no_fault file.position) (omega arith) (omega (arith, room))
            (rw at (omega (arith, count_lem file total_written m ms))))

write_eif_to_regions-ok :
    (file : EifFile) (ms : List Mapping) (offset : ℕ)
    → file.metadata_ok ≡ true
    → file.rewind_ok ≡ true
    → write_eif_to_regions file ms offset
      ≡ write_regions (length file.content) offset 0 ms (record file { position = 0 })
unfolding write_eif_to_regions
write_eif_to_regions-ok file ms offset metadata rewind = ground arith

-- When no call on the file fails, each region has the bytes that its size says, and the end of the
-- image and the sizes of the regions fit 64 bits, the write succeeds, the memory behind the regions
-- ends as the memory before with the image written at its offset, as far as the memory reaches, and
-- the regions are the same.
pub write_eif_to_regions-Written :
    (file : EifFile) (ms : List Mapping) (offset : ℕ)
    → file.metadata_ok ≡ true
    → file.rewind_ok ≡ true
    → ((p : ℕ) → file.fault p ≡ none)
    → All IsBacked ms
    → length file.content + offset < 2 ^ 64
    → capacity ms < 2 ^ 64
    → Written (write_at offset file.content (memory ms)) ms (write_eif_to_regions file ms offset)
write_eif_to_regions-Written file ms offset metadata rewind no_fault backed small fits =
    let e : offset - 0 ≡ offset = omega arith in
    let z : 0 - offset ≡ 0 = omega arith in
    rw (write_eif_to_regions-ok file ms offset metadata rewind) (
      rw (e, z) at
        (write_regions-Written offset ms 0 (record file { position = 0 }) backed small
          (omega (arith, fits)) no_fault (rw z)))

-- When no call on the file fails, each region has the bytes that its size says, and the regions reach
-- to the end of the image and fit 64 bits, the image can be read back at its offset from the memory
-- to which it was written.
image_read_back :
    (file : EifFile) (ms : List Mapping) (offset : ℕ)
    → file.metadata_ok ≡ true
    → file.rewind_ok ≡ true
    → ((p : ℕ) → file.fault p ≡ none)
    → All IsBacked ms
    → length file.content + offset ≤ capacity ms
    → capacity ms < 2 ^ 64
    → take (length file.content) (drop offset (memory (write_eif_to_regions file ms offset).1))
      ≡ file.content
image_read_back file ms offset metadata rewind no_fault backed reach fits =
    rw
      (write_eif_to_regions-Written file ms offset metadata rewind no_fault backed (omega arith)
        fits).bytes
      (read_back-write_at offset file.content (memory ms) (omega (arith, length-memory ms backed)))
