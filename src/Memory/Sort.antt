-- ===== src/Memory/Sort.antt =====
-- The total size of a list of memory regions, and the standard library's stable `sort_by` as
-- `ResourceAllocator::allocate` uses it: in descending order of size.
use aws_nitro_enclaves_cli.Common.{
  ℕ, ◌+◌, ◌≤◌, ◌≡◌, refl, List, [], ◌∷◌, ◌++◌, arith, leb, if◌then◌else◌, All,
}
use aws_nitro_enclaves_cli.Memory.{MemoryRegion}

-- The bytes of all the regions.
unfoldable pub total : List MemoryRegion → ℕ
total [] = 0
total (r ∷ rs) = r.mem_size + total rs

-- A region goes in front of the first that is not larger, so equal ones keep their order.
unfoldable pub insert : MemoryRegion → List MemoryRegion → List MemoryRegion
insert r [] = r ∷ []
insert r (s ∷ rs) = if leb s.mem_size r.mem_size then r ∷ s ∷ rs else s ∷ insert r rs

unfoldable pub sort : List MemoryRegion → List MemoryRegion
unfolding insert
sort [] = []
sort (r ∷ rs) = insert r (sort rs)

-- Sorted in descending order: each region is at least as large as those behind it.
abbrev pub IsSorted : List MemoryRegion → Type 0
IsSorted [] = Unit
IsSorted (r ∷ rs) = All (λ s. s.mem_size ≤ r.mem_size) rs × IsSorted rs

pub total-append : (rs ss : List MemoryRegion) → total (rs ++ ss) ≡ total rs + total ss
unfolding total
total-append [] ss = omega arith
total-append (r ∷ rs) ss = omega (arith, total-append rs ss)

total-insert :
    (r : MemoryRegion) (rs : List MemoryRegion) → total (insert r rs) ≡ r.mem_size + total rs
unfolding total insert
total-insert r [] = refl
total-insert r (s ∷ rs) = ground (arith, total-insert r rs)

pub total-sort : (rs : List MemoryRegion) → total (sort rs) ≡ total rs
unfolding sort total
total-sort [] = refl
total-sort (r ∷ rs) = omega (arith, total-insert r (sort rs), total-sort rs)

module _ (P : MemoryRegion → Type 0) where
  All-insert : (r : MemoryRegion) (rs : List MemoryRegion) → P r → All P rs → All P (insert r rs)
  unfolding insert
  All-insert r [] p ps = (p, tt)
  All-insert r (s ∷ rs) p ps = ground (arith, All-insert r rs p ps.1)

  pub All-sort : (rs : List MemoryRegion) → All P rs → All P (sort rs)
  unfolding sort
  All-sort [] ps = tt
  All-sort (r ∷ rs) ps = All-insert r (sort rs) ps.0 (All-sort rs ps.1)

All-le_trans :
    (a b : ℕ) (rs : List MemoryRegion)
    → a ≤ b
    → All (λ s. s.mem_size ≤ a) rs
    → All (λ s. s.mem_size ≤ b) rs
All-le_trans a b [] h ps = tt
All-le_trans a b (r ∷ rs) h ps = (omega arith, All-le_trans a b rs h ps.1)

insert-IsSorted : (r : MemoryRegion) (rs : List MemoryRegion) → IsSorted rs → IsSorted (insert r rs)
unfolding insert
insert-IsSorted r [] h = (tt, tt)
insert-IsSorted r (s ∷ rs) h = ground (
  arith,
  All-le_trans s.mem_size r.mem_size rs,
  All-insert (λ t. t.mem_size ≤ s.mem_size) r rs,
  insert-IsSorted r rs h.1,
)

pub sort-IsSorted : (rs : List MemoryRegion) → IsSorted (sort rs)
unfolding sort
sort-IsSorted [] = tt
sort-IsSorted (r ∷ rs) = insert-IsSorted r (sort rs) (sort-IsSorted rs)
