-- ===== src/Enclave/Unready.antt =====
-- An enclave that is started and does not send its heart beat: the end of `create_enclave`.
use aws_nitro_enclaves_cli.Common.{
  ℕ, zero, suc, ◌^◌, ◌<◌, ◌≡◌, ◌≢◌, refl, sym, ap, ◌∙◌, Bool, Option, none, some, List, [], ◌∷◌,
  arith, length,
}
use mathlib.Core.Path.{subst}
use aws_nitro_enclaves_cli.Common.Int.{ℤ}
use aws_nitro_enclaves_cli.Failure.{NitroCliResult, ok}
use aws_nitro_enclaves_cli.Exec.{Exec, pure, lift, gets, modify, ◌>>=◌, ◌>>◌}
use aws_nitro_enclaves_cli.EifLoader.{EifLoaderError, enclave_ready, calculate_necessary_timeout}
use aws_nitro_enclaves_cli.Cpu.Config.{EnclaveCpuConfig, list, count}
use aws_nitro_enclaves_cli.Memory.{MemoryRegion}
use aws_nitro_enclaves_cli.Image.{EifFile}
use aws_nitro_enclaves_cli.Memory.Allocator.{ResourceAllocator}
use aws_nitro_enclaves_cli.Memory.Allocator.Cover.{IsFit}
use aws_nitro_enclaves_cli.Enclave.{
  Driver, EnclaveHandle, World, cid_or_zero, say, terminate_enclave, terminate_enclave_and_notify,
}
use aws_nitro_enclaves_cli.Enclave.Create.{
  init_memory, init_single_cpu, init_listed, init_counted, init_config, init_cpus, bind_ready,
  start, wait_ready, create_enclave, require_file, file_size, run_info, load_image, write_eif,
  allocate_memory,
}
use aws_nitro_enclaves_cli.Enclave.Resources.{
  handle-set_regions, init_memory-load_image, handle-say, allocated, init_memory-ok,
}

module _ (D : Driver) where
  -- The calls up to the start of the enclave.
  abbrev pub started : Bool → Exec (World D) ℕ
  started connected = do init_memory D connected; init_cpus D; bind_ready D; start D connected

  -- What follows them in `create_enclave`.
  abbrev boot : Bool → ℕ → Exec (World D) (List ℕ)
  boot connected enclave_cid = do
    given ← gets (λ w. w.handle.eif_file)
    eif_file ← lift (require_file D given)
    eif_size ← lift (file_size D eif_file)
    wait_ready D (calculate_necessary_timeout eif_size)
    modify (λ w. record w { handle = record w.handle { enclave_cid = some enclave_cid } })
    slot_uid ← gets (λ w. w.handle.slot_uid)
    enclave_id ← run_info D slot_uid
    say D connected
    pure enclave_id

  create_enclave-started :
      (connected : Bool) (cid : ℕ) (w : World D)
      → (started connected w).0 ≡ ok cid
      → create_enclave D connected w ≡ boot connected cid (started connected w).1
  unfolding create_enclave
  create_enclave-started connected cid w h = ground arith

  wait_ready-late :
      (poll_timeout : ℤ) (e : EifLoaderError) (w : World D)
      → cid_or_zero w.handle.enclave_cid ≡ 0
      → enclave_ready (D.wait_ready poll_timeout w.sys).0 ≡ some e
      → ((wait_ready D poll_timeout w).0 ≢ ok tt)
        × ((wait_ready D poll_timeout w).1.handle ≡ w.handle)
  unfolding wait_ready terminate_enclave_and_notify terminate_enclave
  wait_ready-late poll_timeout e w unnamed late = ground arith

  -- The heart beat does not come, however long the wait.
  abbrev pub NeverReady : Type 0
  NeverReady =
      (timeout : ℤ) (k : D.State)
      → (e : EifLoaderError) × (enclave_ready (D.wait_ready timeout k).0 ≡ some e)

  boot-late :
      NeverReady
      → (connected : Bool) (cid : ℕ) (given : Option EifFile) (w : World D)
      → w.handle.eif_file ≡ given
      → cid_or_zero w.handle.enclave_cid ≡ 0
      → ((id : List ℕ) → (boot connected cid w).0 ≢ ok id)
        × ((boot connected cid w).1.handle ≡ w.handle)
  boot-late never connected cid none w is unnamed = ((λ id. ground arith), ground arith)
  boot-late never connected cid (some file) w is unnamed =
      let timeout = calculate_necessary_timeout (length file.content) in
      let (e, late) = never timeout w.sys in
      let (fails, same) = wait_ready-late timeout e w unnamed late in
      ((λ id. ground arith), ground arith)

  -- The parts of the handle that the steps behind `init_memory` leave as they are.
  abbrev SameEnclave : EnclaveHandle D.Metadata → EnclaveHandle D.Metadata → Type 0
  SameEnclave h h' =
      (h.resource_allocator ≡ h'.resource_allocator) × (h.enclave_cid ≡ h'.enclave_cid)

  init_single_cpu-SameEnclave :
      (id : ℕ) (w : World D) → SameEnclave (init_single_cpu D id w).1.handle w.handle
  unfolding init_single_cpu
  init_single_cpu-SameEnclave id w = ground arith

  init_listed-SameEnclave :
      (ids : List ℕ) (w : World D) → SameEnclave (init_listed D ids w).1.handle w.handle
  unfolding init_listed
  init_listed-SameEnclave [] w = (refl, refl)
  init_listed-SameEnclave (id ∷ ids) w = ground (
    arith,
    init_single_cpu-SameEnclave id w,
    init_listed-SameEnclave ids (init_single_cpu D id w).1,
  )

  init_counted-SameEnclave :
      (n : ℕ) (w : World D) → SameEnclave (init_counted D n w).1.handle w.handle
  unfolding init_counted
  init_counted-SameEnclave zero w = (refl, refl)
  init_counted-SameEnclave (suc n) w =
      ground (
        arith,
        init_single_cpu-SameEnclave 0 w,
        init_counted-SameEnclave n (init_single_cpu D 0 w).1,
      )

  init_config-SameEnclave :
      (config : EnclaveCpuConfig) (w : World D)
      → SameEnclave (init_config D config w).1.handle w.handle
  init_config-SameEnclave (list ids) w = init_listed-SameEnclave ids w
  init_config-SameEnclave (count n) w = init_counted-SameEnclave n w

  start-SameEnclave : (connected : Bool) (w : World D) → (start D connected w).1.handle ≡ w.handle
  unfolding start
  start-SameEnclave connected w = ground arith

  started-init_memory :
      (connected : Bool) (cid : ℕ) (w : World D)
      → (started connected w).0 ≡ ok cid
      → ((init_memory D connected w).0 ≡ ok tt)
        × SameEnclave (started connected w).1.handle (init_memory D connected w).1.handle
  unfolding init_cpus
  started-init_memory connected cid w h =
      let w1 = (init_memory D connected w).1 in
      let w2 = (init_config D w1.handle.cpu_config w1).1 in
      ground (
        arith,
        init_config-SameEnclave w1.handle.cpu_config w1,
        start-SameEnclave connected (bind_ready D w2).1,
      )

  load_image-enclave_cid :
      (rs : List MemoryRegion) (w : World D)
      → (load_image D rs w).1.handle.enclave_cid ≡ w.handle.enclave_cid
  unfolding load_image write_eif
  load_image-enclave_cid rs w = grind (arith, handle-set_regions)

  allocate_memory-enclave_cid :
      (w : World D) → (allocate_memory D w).1.handle.enclave_cid ≡ w.handle.enclave_cid
  unfolding allocate_memory
  allocate_memory-enclave_cid w = ground arith

  init_memory-enclave_cid :
      (connected : Bool) (w : World D)
      → (init_memory D connected w).0 ≡ ok tt
      → (init_memory D connected w).1.handle.enclave_cid ≡ w.handle.enclave_cid
  init_memory-enclave_cid connected w h =
      let (rs, _, _, p) = init_memory-load_image D connected w h in
      let w' = (say D connected w).1 in
      ap (λ (r : NitroCliResult (Unit {0}) × World D). r.1.handle.enclave_cid) p
      ∙ load_image-enclave_cid rs (allocated D rs (allocate_memory D w').1)
      ∙ allocate_memory-enclave_cid w'
      ∙ ap (λ (h : EnclaveHandle D.Metadata). h.enclave_cid) (handle-say D connected w)

  -- A request that names no CID, for a handle with no memory and less than 2 ^ 63 bytes, whose enclave is
  -- started but sends no heart beat: `create_enclave` does not succeed, the handle is as it was at the start of
  -- the enclave, with the regions that fit the request, and a termination of it does nothing.
  pub create_enclave-late :
      (connected : Bool) (cid : ℕ) (w : World D)
      → NeverReady
      → w.handle.resource_allocator.mem_regions ≡ []
      → w.handle.resource_allocator.requested_mem < 2 ^ 63
      → cid_or_zero w.handle.enclave_cid ≡ 0
      → (started connected w).0 ≡ ok cid
      → let v = (create_enclave D connected w).1 in
        ((id : List ℕ) → (create_enclave D connected w).0 ≢ ok id)
        × (v.handle ≡ (started connected w).1.handle)
        × IsFit w.handle.resource_allocator.requested_mem v.handle.resource_allocator.mem_regions
        × (terminate_enclave D v ≡ (ok tt, v))
  unfolding terminate_enclave
  create_enclave-late connected cid w never fresh small unnamed h =
      let s = (started connected w).1 in
      let (done, (allocator, named)) = started-init_memory connected cid w h in
      let at_start : cid_or_zero s.handle.enclave_cid ≡ 0 =
        ap cid_or_zero (named ∙ init_memory-enclave_cid connected w done) ∙ unnamed in
      let (fails, kept) = boot-late never connected cid s.handle.eif_file s refl at_start in
      let step = create_enclave-started connected cid w h in
      let same : (create_enclave D connected w).1.handle ≡ s.handle =
        ap (λ (r : NitroCliResult (List ℕ) × World D). r.1.handle) step ∙ kept in
      let (fit, _, _) = init_memory-ok D connected w fresh small done in
      (
        (λ id e. fails id (ap (λ (r : NitroCliResult (List ℕ) × World D). r.0) (sym step) ∙ e)),
        same,
        subst (IsFit w.handle.resource_allocator.requested_mem)
            (sym (
              ap (λ (h : EnclaveHandle D.Metadata). h.resource_allocator.mem_regions) same
              ∙ ap (λ (a : ResourceAllocator). a.mem_regions) allocator))
            fit,
        ground (arith, same, at_start),
      )
