-- ===== src/Memory/Allocator.antt =====
-- src/enclave_proc/resource_manager.rs: `ResourceAllocator`. The two loops of `allocate` over the
-- huge pages share their body; `needed_mem` is an `i64`.

pub mod Loop
pub mod Cover
use aws_nitro_enclaves_cli.Common.{
  ℕ, zero, suc, Bool, true, false, List, [], ◌∷◌, ◌++◌, ◌==◌, if◌then◌else◌, take, drop,
}
use aws_nitro_enclaves_cli.Common.Int.{ℤ, pos, pos_part, ◌-ℤ◌, ltb_ℤ, leb_ℤ, as_i64}
use mathlib.Core.List.{reverse}
use aws_nitro_enclaves_cli.Failure.{
  NitroCliResult, ok, err, exit, insufficient_memory_requested, insufficient_memory_available,
}
use aws_nitro_enclaves_cli.Memory.{
  Kernel, HugePage, MemoryRegion, huge_page_map, new, free, drop_region,
}
use aws_nitro_enclaves_cli.Memory.Sort.{sort}

pub record ResourceAllocator : Type 0 where
  pub requested_mem : ℕ
  pub mem_regions : List MemoryRegion

-- `ResourceAllocator::new`
unfoldable pub new_allocator : ℕ → NitroCliResult ResourceAllocator
new_allocator requested_mem =
    if requested_mem == 0
    then err insufficient_memory_requested
    else ok (record { requested_mem = requested_mem; mem_regions = [] })

-- What the loops of `allocate` change.
pub record Progress (S : Type 0) : Type 0 where
  pub needed_mem : ℤ
  pub mem_regions : List MemoryRegion
  pub kernel : S

-- A page is mapped: `needed_mem -= value.mem_size; self.mem_regions.push(value)`.
abbrev pub grow : {S : Type 0} → Progress S → MemoryRegion → S → Progress S
grow p value k = record {
  needed_mem = p.needed_mem -ℤ pos value.mem_size;
  mem_regions = p.mem_regions ++ value ∷ [];
  kernel = k;
}

-- How a `while` loop ended: by its test, by a `break`, or not within the fuel.
pub data Stop : Type 0 where
  tested broke no_fuel : Stop

-- The tests of the two `while` loops, for a page of the given size.
unfoldable pub fits : ℕ → ℤ → Bool
fits size needed_mem = leb_ℤ (pos size) needed_mem

unfoldable pub remains : ℕ → ℤ → Bool
remains size needed_mem = ltb_ℤ (pos 0) needed_mem

-- `for region in self.mem_regions.iter() { if needed_mem <= 0 { break; } … }`
unfoldable pub split_index : ℤ → List MemoryRegion → ℕ
split_index needed_mem [] = 0
split_index needed_mem (r ∷ rs) =
    let rest = split_index (needed_mem -ℤ pos r.mem_size) rs in
    if leb_ℤ needed_mem (pos 0) then 0 else suc rest

module _ (K : Kernel) where
  open K use {State}

  -- The `match` on `MemoryRegion::new`, which never exits.
  unfoldable pub next :
      (Progress State → Progress State × Stop)
      → Progress State
      → NitroCliResult MemoryRegion × State
      → Progress State × Stop
  next continue p (ok value, k) = continue (grow p value k)
  next continue p (err e, k) = (record p { kernel = k }, broke)
  next continue p (exit e, k) = (record p { kernel = k }, broke)

  -- One `while` loop. A round takes at least one byte off a positive need.
  unfoldable pub map_pages : (ℤ → Bool) → ℕ → ℕ → Progress State → Progress State × Stop
  map_pages test flag zero p = (p, no_fuel)
  map_pages test flag (suc fuel) p = elim (test p.needed_mem) [
    | false ↦ (p, tested)
    | true ↦ next (map_pages test flag fuel) p (new K flag p.kernel)
  ]

  -- `for page_info in …`: one `while` loop for each page.
  unfoldable pub map_each : (ℕ → ℤ → Bool) → List HugePage → Progress State → Progress State
  map_each test [] p = p
  map_each test (page ∷ pages) p =
      map_each test pages (map_pages (test page.size) page.flag (suc (pos_part p.needed_mem)) p).0

  -- Dropped regions, from the front. An exit leaves the others to the system.
  unfoldable pub drop_regions : List MemoryRegion → State → NitroCliResult (Unit {0}) × State
  unfolding drop_region
  drop_regions [] k = (ok tt, k)
  drop_regions (r ∷ rs) k =
      let (result, k') = drop_region K r k in
      let rest = drop_regions rs k' in
      elim result [ ok _ ↦ rest | err e ↦ (err e, k') | exit e ↦ (exit e, k') ]

  -- The two passes: larger pages first, then, with memory still needed, smaller pages first.
  unfoldable pub map_all : ResourceAllocator → State → Progress State
  map_all a k =
      let first =
        map_each fits (huge_page_map K) (record {
          needed_mem = as_i64 a.requested_mem;
          mem_regions = a.mem_regions;
          kernel = k;
        }) in
      if ltb_ℤ (pos 0) first.needed_mem
      then map_each remains (reverse (huge_page_map K)) first
      else first

  -- The largest regions that cover the request stay, the others are dropped.
  unfoldable pub trim :
      ResourceAllocator
      → List MemoryRegion
      → State
      → NitroCliResult (Unit {0}) × ResourceAllocator × State
  trim a regions k =
      let split = split_index (as_i64 a.requested_mem) regions in
      let (result, k') = drop_regions (drop split regions) k in
      (result, record a { mem_regions = take split regions }, k')

  unfoldable pub allocate :
      ResourceAllocator → State → NitroCliResult (Unit {0}) × ResourceAllocator × State
  allocate a k =
      let p = map_all a k in
      if ltb_ℤ (pos 0) p.needed_mem
      then (err insufficient_memory_available, record a { mem_regions = p.mem_regions }, p.kernel)
      else trim a (sort p.mem_regions) p.kernel

  -- `free` of every region in place, up to the first failure.
  unfoldable pub free_regions :
      List MemoryRegion → State → NitroCliResult (Unit {0}) × List MemoryRegion × State
  unfolding free
  free_regions [] k = (ok tt, [], k)
  free_regions (r ∷ rs) k =
      let (result, r', k') = free K r k in
      let (results, rs', k'') = free_regions rs k' in
      elim result [
        | ok _ ↦ (results, r' ∷ rs', k'')
        | err e ↦ (err e, r' ∷ rs, k')
        | exit e ↦ (exit e, r' ∷ rs, k')
      ]

  -- `ResourceAllocator::free`; the regions are cleared only if each was freed. A cleared region is
  -- dropped, and has address 0 by then.
  abbrev cleared :
      ResourceAllocator
      → NitroCliResult (Unit {0}) × List MemoryRegion × State
      → NitroCliResult (Unit {0}) × ResourceAllocator × State
  cleared a (ok _, rs, k) = (ok tt, record a { mem_regions = [] }, k)
  cleared a (err e, rs, k) = (err e, record a { mem_regions = rs }, k)
  cleared a (exit e, rs, k) = (exit e, record a { mem_regions = rs }, k)

  unfoldable pub free_allocator :
      ResourceAllocator → State → NitroCliResult (Unit {0}) × ResourceAllocator × State
  unfolding free_regions
  free_allocator a k = cleared a (free_regions a.mem_regions k)
