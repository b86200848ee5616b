-- ===== src/Image.antt =====
-- src/enclave_proc/resource_manager.rs: an enclave image is written to the memory regions
-- (`write_eif_to_regions`, `MemoryRegion::fill_from_file`). The memory behind a region is a list of
-- bytes beside it. A file is its content and its position, with the answers that the system gives
-- to the calls on it.
pub mod Bytes
pub mod Round
pub mod Write
mod Tests
use aws_nitro_enclaves_cli.Common.{
  ℕ, zero, suc, ◌+◌, ◌-◌, ◌^◌, min, Bool, true, false, Option, none, some, List, [], ◌∷◌, ltb, leb,
  ◌==◌, if◌then◌else◌, length, take, drop,
}
use aws_nitro_enclaves_cli.Failure.{
  NitroCliResult, ok, err, exit, memory_overflow, eif_parsing_error, file_operation_failure,
}
use aws_nitro_enclaves_cli.Memory.{MemoryRegion}

-- `fault p` is the number of bytes that are read at position `p` before an I/O error, if any.
pub record EifFile : Type 0 where
  pub content : List ℕ
  pub position : ℕ
  pub metadata_ok : Bool
  pub rewind_ok : Bool
  pub fault : ℕ → Option ℕ

-- A region and the bytes that its mapping holds.
pub record Mapping : Type 0 where
  pub region : MemoryRegion
  pub bytes : List ℕ

-- `bytes[offset..offset + source.len()]` is overwritten; what does not fit is not written.
unfoldable pub write_at : ℕ → List ℕ → List ℕ → List ℕ
write_at offset source [] = []
write_at zero [] (b ∷ bytes) = b ∷ bytes
write_at zero (s ∷ source) (b ∷ bytes) = s ∷ write_at zero source bytes
write_at (suc offset) source (b ∷ bytes) = b ∷ write_at offset source bytes

-- The standard library's `read_exact`: whether it read `size` bytes, what it read, and the file.
unfoldable pub read_exact : EifFile → ℕ → Bool × List ℕ × EifFile
read_exact file size = elim (file.fault file.position) [
  | none ↦
      let got = take size (drop file.position file.content) in
      (length got == size, got, record file { position = file.position + length got })
  | some read ↦
      let got = take (min read size) (drop file.position file.content) in
      (false, got, record file { position = file.position + length got })
]

unfoldable pub fill_from_file :
    Mapping → EifFile → ℕ → ℕ → NitroCliResult (Unit {0}) × Mapping × EifFile
fill_from_file m file region_offset size =
    if leb (2 ^ 64) (region_offset + size)
    then (err memory_overflow, m, file)
    else if ltb m.region.mem_size (region_offset + size)
    then (err memory_overflow, m, file)
    else let (done, got, file') = read_exact file size in
      (
        (if done then ok tt else err eif_parsing_error),
        record m { bytes = write_at region_offset got m.bytes },
        file',
      )

-- The loop of `write_eif_to_regions` over the regions.
unfoldable pub write_regions :
    ℕ → ℕ → ℕ → List Mapping → EifFile → NitroCliResult (Unit {0}) × List Mapping × EifFile
write_regions file_size offset total_written [] file = (ok tt, [], file)
write_regions file_size offset total_written (m ∷ ms) file =
    let size = m.region.mem_size in
    let region_offset = offset - total_written in
    let file_offset = total_written - offset in
    let (filled, m', file') : NitroCliResult (Unit {0}) × Mapping × EifFile =
      if leb (total_written + size) offset
      then (ok tt, m, file)
      else fill_from_file m file region_offset
          (min (size - region_offset) (file_size - file_offset)) in
    let (rest, ms', file'') = write_regions file_size offset (total_written + size) ms file' in
    if leb (2 ^ 64) (file_size + offset)
    then (err memory_overflow, m ∷ ms, file)
    else if leb (file_size + offset) total_written
    then (ok tt, m ∷ ms, file)
    else if leb (2 ^ 64) (total_written + size)
    then (err memory_overflow, m ∷ ms, file)
    else elim filled [
      | ok _ ↦ (rest, m' ∷ ms', file'')
      | err e ↦ (err e, m' ∷ ms, file')
      | exit e ↦ (exit e, m' ∷ ms, file')
    ]

unfoldable pub write_eif_to_regions :
    EifFile → List Mapping → ℕ → NitroCliResult (Unit {0}) × List Mapping × EifFile
write_eif_to_regions file ms image_write_offset =
    if file.metadata_ok
    then if file.rewind_ok
      then write_regions (length file.content) image_write_offset 0 ms
          (record file { position = 0 })
      else (err file_operation_failure, ms, file)
    else (err file_operation_failure, ms, file)
