-- ===== src/Enclave/Resources.antt =====
-- The resources that a created enclave holds: its memory, `init_memory`.
use aws_nitro_enclaves_cli.Common.{
  ℕ, ◌/◌, ◌^◌, ◌≤◌, ◌<◌, ◌≡◌, refl, sym, ap, ◌∙◌, Bool, true, false, List, [], ◌∷◌, arith,
}
use aws_nitro_enclaves_cli.Failure.{NitroCliResult, ok}
use mathlib.Core.Path.{subst}
use aws_nitro_enclaves_cli.Common.Int.{ℤ}
use aws_nitro_enclaves_cli.Exec.{continue-ok}
use aws_nitro_enclaves_cli.Memory.{MemoryRegion}
use aws_nitro_enclaves_cli.Memory.Sort.{total}
use aws_nitro_enclaves_cli.Memory.Allocator.{allocate}
use aws_nitro_enclaves_cli.Memory.Allocator.Cover.{IsFit, allocate-IsFit}
use aws_nitro_enclaves_cli.Image.{EifFile}
use aws_nitro_enclaves_cli.Enclave.{Driver, EnclaveHandle, World, say}
use aws_nitro_enclaves_cli.Enclave.Create.{
  allocate_memory, check_allocated, write_eif, set_regions, load_image, init_memory,
}

module _ (D : Driver) where
  pub handle-set_regions :
      (enc_fd : ℤ) (rs : List MemoryRegion) (w : World D)
      → (set_regions D enc_fd rs w).1.handle ≡ w.handle
  unfolding set_regions
  handle-set_regions enc_fd [] w = refl
  handle-set_regions enc_fd (r ∷ rs) w = ground (
    arith,
    handle-set_regions enc_fd rs (record w { sys = (D.set_user_memory_region enc_fd r w.sys).1 }),
  )

  -- The parts of the handle that say which memory it has.
  abbrev SameMemory : EnclaveHandle D.Metadata → EnclaveHandle D.Metadata → Type 0
  SameMemory h h' =
      (h.resource_allocator ≡ h'.resource_allocator)
      × (h.allocated_memory_mib ≡ h'.allocated_memory_mib)

  write_eif-SameMemory :
      (file : EifFile) (rs : List MemoryRegion) (offset : ℕ) (w : World D)
      → SameMemory (write_eif D file rs offset w).1.handle w.handle
  unfolding write_eif
  write_eif-SameMemory file rs offset w = (refl, refl)

  load_image-SameMemory :
      (rs : List MemoryRegion) (w : World D) → SameMemory (load_image D rs w).1.handle w.handle
  unfolding load_image
  load_image-SameMemory rs w = grind (arith, handle-set_regions, write_eif-SameMemory)

  allocate_memory-ok :
      (w : World D)
      → w.handle.resource_allocator.mem_regions ≡ []
      → w.handle.resource_allocator.requested_mem < 2 ^ 63
      → (rs : List MemoryRegion) → (allocate_memory D w).0 ≡ ok rs
      → IsFit w.handle.resource_allocator.requested_mem rs
        × ((allocate_memory D w).1.handle.resource_allocator.mem_regions ≡ rs)
  unfolding allocate_memory
  allocate_memory-ok w fresh small rs h =
      let done : (allocate D.kernel w.handle.resource_allocator w.sys).0 ≡ ok tt = ground arith in
      let same : (allocate D.kernel w.handle.resource_allocator w.sys).1.mem_regions ≡ rs =
        ground arith in
      (
        subst (IsFit w.handle.resource_allocator.requested_mem) same
            (allocate-IsFit D.kernel w.handle.resource_allocator w.sys fresh small done),
        ground arith,
      )

  -- `init_memory` behind its first message, which leaves the handle as it is.
  abbrev pub allocated : List MemoryRegion → World D → World D
  allocated rs w = record w {
    handle = record w.handle { allocated_memory_mib = total rs / 2 ^ 20 };
  }

  abbrev after_check : List MemoryRegion → World D → NitroCliResult (Unit {0}) × World D
  after_check rs w = (
    check_allocated D (total rs / 2 ^ 20) (w.handle.resource_allocator.requested_mem / 2 ^ 20),
    allocated rs (allocate_memory D w).1,
  )

  pub handle-say : (connected : Bool) (w : World D) → (say D connected w).1.handle ≡ w.handle
  handle-say true w = refl
  handle-say false w = refl

  -- A success of `init_memory`, by its last step: the state in which the image is loaded.
  pub init_memory-load_image :
      (connected : Bool) (w : World D)
      → (init_memory D connected w).0 ≡ ok tt
      → let w' = (say D connected w).1 in
        (rs : List MemoryRegion) × ((allocate_memory D w').0 ≡ ok rs)
        × (w'.handle.resource_allocator.requested_mem / 2 ^ 20 ≤ total rs / 2 ^ 20)
        × (init_memory D connected w ≡ load_image D rs (allocated rs (allocate_memory D w').1))
  unfolding init_memory
  init_memory-load_image connected w success =
      let (_, _, p) = continue-ok (say D connected w) _ success in
      let (rs, done, q) =
        continue-ok (allocate_memory D (say D connected w).1) _ (sym (ap (λ x. x.0) p) ∙ success) in
      let (_, enough, s) =
        continue-ok (after_check rs (say D connected w).1) _
          (sym (ap (λ x. x.0) (p ∙ q)) ∙ success) in
      (rs, done, ground (arith, enough), p ∙ q ∙ s)

  -- After a success of `init_memory`, for a handle with no memory and a request below 2 ^ 63 bytes,
  -- the regions of the handle fit the request, and the memory recorded in MiB is theirs and not less
  -- than the request in MiB.
  pub init_memory-ok :
      (connected : Bool) (w : World D)
      → w.handle.resource_allocator.mem_regions ≡ []
      → w.handle.resource_allocator.requested_mem < 2 ^ 63
      → (init_memory D connected w).0 ≡ ok tt
      → IsFit w.handle.resource_allocator.requested_mem
          (init_memory D connected w).1.handle.resource_allocator.mem_regions
        × ((init_memory D connected w).1.handle.allocated_memory_mib
            ≡ total (init_memory D connected w).1.handle.resource_allocator.mem_regions / 2 ^ 20)
        × (w.handle.resource_allocator.requested_mem / 2 ^ 20
            ≤ (init_memory D connected w).1.handle.allocated_memory_mib)
  init_memory-ok connected w fresh small success =
      let same = handle-say connected w in
      let (rs, done, enough, p) = init_memory-load_image connected w success in
      let (fit, kept) =
        allocate_memory-ok (say D connected w).1 (rw same fresh) (rw same small) rs done in
      let (held, recorded) =
        load_image-SameMemory rs (allocated rs (allocate_memory D (say D connected w).1).1) in
      let regions : (init_memory D connected w).1.handle.resource_allocator.mem_regions ≡ rs =
        rw (p, held, kept) in
      let mib : (init_memory D connected w).1.handle.allocated_memory_mib ≡ total rs / 2 ^ 20 =
        rw (p, recorded) in
      rw (regions, mib)
        (subst (λ h. IsFit h.resource_allocator.requested_mem rs) same fit, refl, rw same at enough)
