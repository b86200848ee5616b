-- ===== src/Memory/Allocator/Cover.antt =====
-- What `ResourceAllocator::allocate` promises of the regions that it keeps.
use aws_nitro_enclaves_cli.Common.{
  ℕ, zero, suc, ◌^◌, ◌≤◌, ◌<◌, ◌≡◌, refl, inl, inr, List, [], ◌∷◌, arith, Bool-cases, All, All-take,
  length, take, drop, ◌≢◌,
}
use aws_nitro_enclaves_cli.Common.Int.{
  ℤ, pos, pos_part, ◌-ℤ◌, ltb_ℤ, as_i64, -ℤ-pos_part, as_i64-pos_part, as_i64-neg_part,
  parts_disjoint,
}
use mathlib.Core.List.{reverse}
use aws_nitro_enclaves_cli.Failure.{NitroCliErrorEnum, ok, err, insufficient_memory_available}
use aws_nitro_enclaves_cli.Memory.{Kernel, MemoryRegion, huge_page_map, drop_region}
use aws_nitro_enclaves_cli.Memory.Sort.{total, sort, IsSorted, total-sort, All-sort, sort-IsSorted}
use aws_nitro_enclaves_cli.Memory.Allocator.{
  ResourceAllocator, Progress, fits, remains, split_index, map_each, drop_regions, map_all, trim,
  allocate,
}
use aws_nitro_enclaves_cli.Memory.Allocator.Loop.{IsPage, Inv, map_each-Inv}

-- The regions before the split cover what is needed, if all of them do.
split_index-covers :
    (needed : ℤ) (rs : List MemoryRegion)
    → pos_part needed ≤ total rs
    → pos_part needed ≤ total (take (split_index needed rs) rs)
unfolding split_index total
split_index-covers needed [] h = h
split_index-covers needed (r ∷ rs) h =
    ground (arith, -ℤ-pos_part needed r.mem_size, split_index-covers (needed -ℤ pos r.mem_size) rs)

-- No fewer regions do.
split_index-minimal :
    (needed : ℤ) (rs : List MemoryRegion) (n : ℕ)
    → n < split_index needed rs
    → total (take n rs) < pos_part needed
unfolding split_index total
split_index-minimal needed [] n h = absurd (omega arith)
split_index-minimal needed (r ∷ rs) zero h = ground arith
split_index-minimal needed (r ∷ rs) (suc n) h =
    ground
      (arith, -ℤ-pos_part needed r.mem_size, split_index-minimal (needed -ℤ pos r.mem_size) rs n)

take-IsSorted : (n : ℕ) (rs : List MemoryRegion) → IsSorted rs → IsSorted (take n rs)
take-IsSorted zero rs h = tt
take-IsSorted (suc n) [] h = tt
take-IsSorted (suc n) (r ∷ rs) h =
    (All-take (λ s. s.mem_size ≤ r.mem_size) n rs h.0, take-IsSorted n rs h.1)

length-take-le {ℓ} : {A : Type ℓ} (n : ℕ) (xs : List A) → length (take n xs) ≤ n
length-take-le zero xs = omega arith
length-take-le (suc n) [] = omega arith
length-take-le (suc n) (x ∷ xs) = omega (arith, length-take-le n xs)

take-take {ℓ} : {A : Type ℓ} (n m : ℕ) (xs : List A) → n ≤ m → take n (take m xs) ≡ take n xs
take-take zero m xs h = refl
take-take (suc n) zero xs h = absurd (omega arith)
take-take (suc n) (suc m) [] h = refl
take-take (suc n) (suc m) (x ∷ xs) h = rw (take-take n m xs (omega arith))

-- Regions that allocation keeps after a success: they cover the request, no smaller number of the
-- largest of them does, they stand in descending order of size, and each is a whole number of
-- pages of 2 MiB.
pub record IsFit (requested : ℕ) (rs : List MemoryRegion) : Type 0 where
  pub covers : requested ≤ total rs
  pub minimal : (n : ℕ) → n < length rs → total (take n rs) < requested
  pub sorted : IsSorted rs
  pub pages : All IsPage rs

-- A failure to free a dropped region ends the process, so it is no error of the caller.
drop_regions-ne-err :
    (K : Kernel) (rs : List MemoryRegion) (k : K.State) (e : NitroCliErrorEnum)
    → (drop_regions K rs k).0 ≢ err e
unfolding drop_regions drop_region
drop_regions-ne-err K [] k e = λ h. cc
drop_regions-ne-err K (r ∷ rs) k e =
    ground (arith, drop_regions-ne-err K rs (drop_region K r k).1 e)

module _ (K : Kernel) (a : ResourceAllocator) (k : K.State) where
  fresh-Inv :
      a.mem_regions ≡ []
      → a.requested_mem < 2 ^ 63
      → Inv K a.requested_mem
          (record { needed_mem = as_i64 a.requested_mem; mem_regions = a.mem_regions; kernel = k })
  unfolding total
  fresh-Inv empty h = record {
    balance =
        rw empty
          (omega (arith, as_i64-pos_part a.requested_mem h, as_i64-neg_part a.requested_mem h));
    pages = rw empty tt;
  }

  pub map_all-Inv :
      a.mem_regions ≡ [] → a.requested_mem < 2 ^ 63 → Inv K a.requested_mem (map_all K a k)
  unfolding map_all
  map_all-Inv empty h = elim (Bool-cases (ltb_ℤ (pos 0) first.needed_mem)) [
    | inl more ↦
        rw more (map_each-Inv K a.requested_mem remains (reverse (huge_page_map K)) first first-Inv)
    | inr done ↦ rw done first-Inv
  ]
    where
      first : Progress K.State
      first =
          map_each K fits (huge_page_map K) (record {
            needed_mem = as_i64 a.requested_mem;
            mem_regions = a.mem_regions;
            kernel = k;
          })

      first-Inv : Inv K a.requested_mem first
      first-Inv = map_each-Inv K a.requested_mem fits (huge_page_map K) _ (fresh-Inv empty h)

  abbrev regions : List MemoryRegion
  regions = sort (map_all K a k).mem_regions

  -- The regions that are left after a success.
  allocate-regions :
      (allocate K a k).0 ≡ ok tt
      → ((allocate K a k).1.mem_regions
          ≡ take (split_index (as_i64 a.requested_mem) regions) regions)
        × (pos_part (map_all K a k).needed_mem ≡ 0)
  unfolding allocate trim
  allocate-regions h = ground arith

  -- From an allocator with no regions and a request below 2 ^ 63 bytes, a success of `allocate`
  -- leaves regions that cover the request, of which no proper prefix covers it, in descending
  -- order of size, each a whole number of 2 MiB pages and at most 16 GiB.
  pub allocate-IsFit :
      a.mem_regions ≡ []
      → a.requested_mem < 2 ^ 63
      → (allocate K a k).0 ≡ ok tt
      → IsFit a.requested_mem (allocate K a k).1.mem_regions
  allocate-IsFit empty h success = rw (allocate-regions success).0 (record {
    covers = omega (arith, request, split_index-covers (as_i64 a.requested_mem) regions enough);
    minimal = λ n lt. rw (take-take n split regions (omega (arith, before n lt))) (
        omega
          (arith, request, split_index-minimal (as_i64 a.requested_mem) regions n (before n lt)));
    sorted = take-IsSorted split regions (sort-IsSorted (map_all K a k).mem_regions);
    pages =
        All-take IsPage split regions
          (All-sort IsPage (map_all K a k).mem_regions (map_all-Inv empty h).pages);
  })
    where
      split : ℕ
      split = split_index (as_i64 a.requested_mem) regions

      request : pos_part (as_i64 a.requested_mem) ≡ a.requested_mem
      request = as_i64-pos_part a.requested_mem h

      enough : pos_part (as_i64 a.requested_mem) ≤ total regions
      enough = omega (
        arith,
        request,
        total-sort (map_all K a k).mem_regions,
        map_all-Inv empty h,
        (allocate-regions success).1,
      )

      before : (n : ℕ) → n < length (take split regions) → n < split
      before n lt = omega (arith, length-take-le split regions)

  -- From an allocator with no regions and a request below 2 ^ 63 bytes, an error of `allocate` is
  -- `InsufficientMemoryAvailable`; the allocator then holds every region that was mapped, and these
  -- do not cover the request.
  pub allocate-eq-err :
      (e : NitroCliErrorEnum)
      → a.mem_regions ≡ []
      → a.requested_mem < 2 ^ 63
      → (allocate K a k).0 ≡ err e
      → (e ≡ insufficient_memory_available)
        × ((allocate K a k).1.mem_regions ≡ (map_all K a k).mem_regions)
        × (total (allocate K a k).1.mem_regions < a.requested_mem)
  unfolding allocate trim
  allocate-eq-err e empty h failure = ground (
    arith,
    map_all-Inv empty h,
    drop_regions-ne-err K (drop (split_index (as_i64 a.requested_mem) regions) regions)
        (map_all K a k).kernel e,
    parts_disjoint (map_all K a k).needed_mem,
  )
