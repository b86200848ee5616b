-- ===== src/Memory/Allocator/Loop.antt =====
-- The loops of `ResourceAllocator::allocate`: they end, they keep the balance between the memory
-- still needed and the memory mapped, and each region is a huge page.
use aws_nitro_enclaves_cli.Common.{
  ℕ, zero, suc, ◌+◌, ◌*◌, ◌%◌, ◌≤◌, ◌<◌, ◌≡◌, refl, ◌≢◌, inl, inr, Bool, true, false, some, List,
  [], ◌∷◌, arith, Bool-cases, All, All-append,
}
use aws_nitro_enclaves_cli.Common.Int.{ℤ, pos, pos_part, neg_part, int_laws, -ℤ_parts, -ℤ-lt}
use aws_nitro_enclaves_cli.Failure.{NitroCliResult, ok, err, exit}
use aws_nitro_enclaves_cli.Memory.{
  Kernel, HugePage, MemoryRegion, page_size, huge_page_map, new, mib, gib,
}
use aws_nitro_enclaves_cli.Memory.Sort.{total, total-append}
use aws_nitro_enclaves_cli.Memory.Allocator.{
  Progress, grow, Stop, tested, broke, no_fuel, fits, remains, next, map_pages, map_each,
}

-- A size that the driver takes: a whole number of pages of 2 MiB, and no more than 16 GiB.
abbrev pub IsPage : MemoryRegion → Type 0
IsPage r = (r.mem_size % (2 * mib) ≡ 0) × (2 * mib ≤ r.mem_size) × (r.mem_size ≤ 16 * gib)

module _ (K : Kernel) where
  open K use {State}

  page_size-huge_page_map :
      (flag size : ℕ)
      → page_size flag (huge_page_map K) ≡ some size
      → (size % (2 * mib) ≡ 0) × (2 * mib ≤ size) × (size ≤ 16 * gib)
  unfolding page_size huge_page_map
  page_size-huge_page_map flag size h = ground arith

  pub new-IsPage :
      (flag : ℕ) (k : State) (value : MemoryRegion) → (new K flag k).0 ≡ ok value → IsPage value
  unfolding new
  new-IsPage flag k value h = ground (arith, page_size-huge_page_map flag value.mem_size)

  -- What holds between two rounds: `requested` is what is mapped and what is still needed.
  pub record Inv (requested : ℕ) (p : Progress State) : Type 0 where
    pub balance : pos_part p.needed_mem + total p.mem_regions ≡ neg_part p.needed_mem + requested
    pub pages : All IsPage p.mem_regions

  next_rule :
      (P : Progress State × Stop → Type 0) (continue : Progress State → Progress State × Stop)
      (p : Progress State) (answer : NitroCliResult MemoryRegion × State)
      → ((value : MemoryRegion) (k : State) → answer.0 ≡ ok value → P (continue (grow p value k)))
      → ((k : State) → P (record p { kernel = k }, broke))
      → P (next K continue p answer)
  unfolding next
  next_rule P continue p (ok value, k) mapped refused = mapped value k refl
  next_rule P continue p (err e, k) mapped refused = refused k
  next_rule P continue p (exit e, k) mapped refused = refused k

  module _ (requested : ℕ) where
    grow-Inv :
        (p : Progress State) (value : MemoryRegion) (k : State)
        → IsPage value
        → Inv requested p
        → Inv requested (grow p value k)
    unfolding total
    grow-Inv p value k h v = record {
      balance = omega (
        int_laws,
        v,
        -ℤ_parts p.needed_mem (pos value.mem_size),
        total-append p.mem_regions (value ∷ []),
      );
      pages = All-append IsPage p.mem_regions (value ∷ []) v.pages (h, tt);
    }

    map_pages-Inv :
        (test : ℤ → Bool) (flag fuel : ℕ) (p : Progress State)
        → Inv requested p
        → Inv requested (map_pages K test flag fuel p).0
    unfolding map_pages
    map_pages-Inv test flag zero p v = v
    map_pages-Inv test flag (suc fuel) p v = elim (Bool-cases (test p.needed_mem)) [
      | inl more ↦
          rw (more, map_pages)
            (next_rule (λ r. Inv requested r.0) (map_pages K test flag fuel) p (new K flag p.kernel)
              (λ value k e.
                map_pages-Inv test flag fuel (grow p value k)
                  (grow-Inv p value k (new-IsPage flag p.kernel value e) v))
              (λ k. record { balance = v.balance; pages = v.pages }))
      | inr done ↦ rw (done, map_pages) v
    ]

    pub map_each-Inv :
        (test : ℕ → ℤ → Bool) (pages : List HugePage) (p : Progress State)
        → Inv requested p
        → Inv requested (map_each K test pages p)
    unfolding map_each
    map_each-Inv test [] p v = v
    map_each-Inv test (page ∷ pages) p v =
        map_each-Inv test pages
          (map_pages K (test page.size) page.flag (suc (pos_part p.needed_mem)) p).0
          (map_pages-Inv (test page.size) page.flag (suc (pos_part p.needed_mem)) p v)

  -- A loop whose test asks for memory ends within a fuel above the memory needed.
  map_pages_stops :
      (test : ℤ → Bool) (flag fuel : ℕ) (p : Progress State)
      → ((needed : ℤ) → test needed ≡ true → 0 < pos_part needed)
      → pos_part p.needed_mem < fuel
      → (map_pages K test flag fuel p).1 ≢ no_fuel
  unfolding map_pages
  map_pages_stops test flag zero p asks h = absurd (omega arith)
  map_pages_stops test flag (suc fuel) p asks h = elim (Bool-cases (test p.needed_mem)) [
    | inl more ↦
        rw (more, map_pages)
          (next_rule (λ r. r.1 ≢ no_fuel) (map_pages K test flag fuel) p (new K flag p.kernel)
            (λ value k e. map_pages_stops test flag fuel (grow p value k) asks (
              omega (
                arith,
                -ℤ-lt p.needed_mem value.mem_size (asks p.needed_mem more),
                new-IsPage flag p.kernel value e,
              )))
            (λ k e. cc))
    | inr done ↦ rw (done, map_pages) (λ e. cc)
  ]

  -- A loop that was not broken off by a refusal leaves its test false.
  map_pages_tested :
      (test : ℤ → Bool) (flag fuel : ℕ) (p : Progress State)
      → (map_pages K test flag fuel p).1 ≡ tested
      → test (map_pages K test flag fuel p).0.needed_mem ≡ false
  unfolding map_pages
  map_pages_tested test flag zero p = λ h. cc
  map_pages_tested test flag (suc fuel) p = elim (Bool-cases (test p.needed_mem)) [
    | inl more ↦
        rw (more, map_pages)
          (next_rule (λ r. r.1 ≡ tested → test r.0.needed_mem ≡ false) (map_pages K test flag fuel)
            p (new K flag p.kernel) (λ value k e. map_pages_tested test flag fuel (grow p value k))
            (λ k e. cc))
    | inr done ↦ rw (done, map_pages) (λ e. done)
  ]

  -- Both loops on a page of at least one byte end by their test or by a refusal of the kernel,
  -- within the fuel that `map_each` gives them.
  pub while_loops_stop :
      (page : HugePage) (p : Progress State)
      → 0 < page.size
      → ((map_pages K (fits page.size) page.flag (suc (pos_part p.needed_mem)) p).1 ≢ no_fuel)
        × ((map_pages K (remains page.size) page.flag (suc (pos_part p.needed_mem)) p).1 ≢ no_fuel)
  unfolding fits remains
  while_loops_stop page p some_byte = (
    map_pages_stops (fits page.size) page.flag (suc (pos_part p.needed_mem)) p
        (λ needed more. ground arith) (omega arith),
    map_pages_stops (remains page.size) page.flag (suc (pos_part p.needed_mem)) p
        (λ needed more. ground arith) (omega arith),
  )
