-- ===== src/Memory/Tests.antt =====
-- The allocator on a machine with a few free pages of 2 MiB.
use aws_nitro_enclaves_cli.Common.{
  ℕ, suc, ◌+◌, ◌-◌, ◌*◌, ◌<◌, ◌≡◌, ◌≢◌, refl, true, Option, none, some, [], ◌∷◌, arith, ◌==◌, ltb,
  if◌then◌else◌, ◌&&◌,
}
use aws_nitro_enclaves_cli.Common.Int.{pos, ◌-ℤ◌}
use aws_nitro_enclaves_cli.Failure.{err, insufficient_memory_available}
use aws_nitro_enclaves_cli.Memory.{Kernel, mib, page_size, huge_page_map, new, free}
use aws_nitro_enclaves_cli.Memory.Sort.{total, sort}
use aws_nitro_enclaves_cli.Memory.Allocator.{
  ResourceAllocator, no_fuel, next, map_pages, map_each, map_all, fits, remains, split_index,
  drop_regions, trim, allocate,
}
use aws_nitro_enclaves_cli.Memory.Allocator.Loop.{while_loops_stop}
use aws_nitro_enclaves_cli.Memory.Allocator.Cover.{IsFit, allocate-IsFit, allocate-eq-err}

-- The state is the number of free pages of 2 MiB; page n lies at address n * 2 MiB.
abbrev map_small : ℕ → ℕ → Option ℕ × ℕ
map_small free size =
    if size == 2 * mib && ltb 0 free then (some (free * size), free - 1) else (none, free)

abbrev pub small_machine : Kernel
small_machine = record {
  State = ℕ;
  map_huge = λ n. n;
  mmap = λ k size flag. map_small k size;
  munmap = λ k addr size. (true, k + 1);
}

abbrev three_mib : ResourceAllocator
three_mib = record { requested_mem = 3 * mib; mem_regions = [] }

two_pages :
    (allocate small_machine three_mib 5).1.mem_regions
    ≡ record { flags = 0; mem_size = 2 * mib; mem_addr = 10 * mib }
      ∷ record { flags = 0; mem_size = 2 * mib; mem_addr = 8 * mib }
      ∷ []
unfolding allocate trim map_all map_each map_pages next new page_size huge_page_map fits remains
    sort split_index drop_regions ◌-ℤ◌
two_pages = refl

allocate-IsFit_example : IsFit (3 * mib) (allocate small_machine three_mib 5).1.mem_regions
unfolding allocate trim map_all map_each map_pages next new page_size huge_page_map fits remains
    sort split_index drop_regions ◌-ℤ◌
allocate-IsFit_example = allocate-IsFit small_machine three_mib 5 refl (omega arith) refl

three_mib_fails : (allocate small_machine three_mib 1).0 ≡ err insufficient_memory_available
unfolding allocate trim map_all map_each map_pages next new page_size huge_page_map fits remains
    sort split_index drop_regions ◌-ℤ◌
three_mib_fails = refl

allocate-eq-err_example :
    (insufficient_memory_available ≡ insufficient_memory_available)
    × ((allocate small_machine three_mib 1).1.mem_regions
        ≡ (map_all small_machine three_mib 1).mem_regions)
    × (total (allocate small_machine three_mib 1).1.mem_regions < 3 * mib)
allocate-eq-err_example =
    allocate-eq-err small_machine three_mib 1 insufficient_memory_available refl (omega arith)
      three_mib_fails

while_loops_stop_example :
    ((map_pages small_machine
        (fits (2 * mib))
        21
        (suc (4 * mib))
        (record { needed_mem = pos (4 * mib); mem_regions = []; kernel = 1 })).1
      ≢ no_fuel)
    × ((map_pages small_machine
          (remains (2 * mib))
          21
          (suc (4 * mib))
          (record { needed_mem = pos (4 * mib); mem_regions = []; kernel = 1 })).1
        ≢ no_fuel)
while_loops_stop_example =
    while_loops_stop small_machine (record { flag = 21; size = 2 * mib })
      (record { needed_mem = pos (4 * mib); mem_regions = []; kernel = 1 }) (omega arith)
