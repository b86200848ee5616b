-- ===== src/Enclave/Vcpus.antt =====
-- The CPUs that a created enclave holds: `init_cpus`.
use aws_nitro_enclaves_cli.Common.{
  ℕ, zero, suc, ◌≡◌, ◌≢◌, refl, sym, ap, false, List, [], ◌∷◌, ◌++◌, arith, length, All,
}
use mathlib.Core.List.{append-nil, append_assoc}
use aws_nitro_enclaves_cli.Common.Int.{ℤ, pos, ltb_ℤ}
use aws_nitro_enclaves_cli.Failure.{ok}
use aws_nitro_enclaves_cli.Cpu.Config.{EnclaveCpuConfig, list, count}
use aws_nitro_enclaves_cli.Enclave.{Driver, World}
use aws_nitro_enclaves_cli.Enclave.Create.{
  init_config, init_single_cpu, init_listed, init_counted, init_cpus,
}

-- CPU 0 stays with the parent, so no list names it.
abbrev pub NamesNoZero : EnclaveCpuConfig → Type 0
NamesNoZero (list ids) = All (λ id. id ≢ 0) ids
NamesNoZero (count n) = Unit

module _ (InPool : ℕ → Type 0) where
  -- The IDs `before` grew to `after` as a configuration says: by its list, in its order, or by as many CPUs of
  -- the pool as it counts.
  abbrev pub Added : EnclaveCpuConfig → List ℕ → List ℕ → Type 0
  Added (list ids) before after = after ≡ before ++ ids
  Added (count n) before after =
      (chosen : List ℕ) × (length chosen ≡ n) × All InPool chosen × (after ≡ before ++ chosen)

  module _ (D : Driver) where
    -- include/uapi/linux/nitro_enclaves.h on `NE_ADD_VCPU`: on success, a CPU that is named is the one added;
    -- for ID 0, a CPU of the pool is chosen and its ID given back.
    abbrev pub AddsVcpu : Type 0
    AddsVcpu =
        (fd : ℤ) (id : ℕ) (k : D.State)
        → ltb_ℤ (D.add_vcpu fd id k).0 (pos 0) ≡ false
        → (id ≢ 0 → (D.add_vcpu fd id k).1 ≡ id) × (id ≡ 0 → InPool (D.add_vcpu fd id k).1)

    init_single_cpu-ok :
        (id : ℕ) (w : World D)
        → (init_single_cpu D id w).0 ≡ ok tt
        → (ltb_ℤ (D.add_vcpu w.handle.enc_fd id w.sys).0 (pos 0) ≡ false)
          × ((init_single_cpu D id w).1.handle.cpu_ids
              ≡ w.handle.cpu_ids ++ (D.add_vcpu w.handle.enc_fd id w.sys).1 ∷ [])
    unfolding init_single_cpu
    init_single_cpu-ok id w h = ground arith

    -- A list or a count whose first CPU is added goes on with the others.
    init_listed-cons :
        (id : ℕ) (ids : List ℕ) (w : World D)
        → (init_listed D (id ∷ ids) w).0 ≡ ok tt
        → ((init_single_cpu D id w).0 ≡ ok tt)
          × (init_listed D (id ∷ ids) w ≡ init_listed D ids (init_single_cpu D id w).1)
    unfolding init_listed
    init_listed-cons id ids w h = ground arith

    init_counted-suc :
        (n : ℕ) (w : World D)
        → (init_counted D (suc n) w).0 ≡ ok tt
        → ((init_single_cpu D 0 w).0 ≡ ok tt)
          × (init_counted D (suc n) w ≡ init_counted D n (init_single_cpu D 0 w).1)
    unfolding init_counted
    init_counted-suc n w h = ground arith

    init_listed-ok :
        AddsVcpu
        → (ids : List ℕ) (w : World D) → All (λ id. id ≢ 0) ids
        → (init_listed D ids w).0 ≡ ok tt
        → (init_listed D ids w).1.handle.cpu_ids ≡ w.handle.cpu_ids ++ ids
    init_listed-ok adds [] w named h = unfold init_listed in sym (append-nil w.handle.cpu_ids)
    init_listed-ok adds (id ∷ ids) w named h =
        let (first, step) = init_listed-cons id ids w h in
        let (done, one) = init_single_cpu-ok id w first in
        let same = (adds w.handle.enc_fd id w.sys done).0 named.0 in
        let rest =
          init_listed-ok adds ids (init_single_cpu D id w).1 named.1 (ground (arith, step)) in
        ground (arith, step, append_assoc w.handle.cpu_ids (id ∷ []) ids)

    init_counted-ok :
        AddsVcpu
        → (n : ℕ) (w : World D) → (init_counted D n w).0 ≡ ok tt
        → Added (count n) w.handle.cpu_ids (init_counted D n w).1.handle.cpu_ids
    init_counted-ok adds zero w h =
        ([], refl, tt, unfold init_counted in sym (append-nil w.handle.cpu_ids))
    init_counted-ok adds (suc n) w h =
        let (first, step) = init_counted-suc n w h in
        let (done, one) = init_single_cpu-ok 0 w first in
        let added = (D.add_vcpu w.handle.enc_fd 0 w.sys).1 in
        let (chosen, many, all, rest) =
          init_counted-ok adds n (init_single_cpu D 0 w).1 (ground (arith, step)) in
        (
          added ∷ chosen,
          ap suc many,
          ((adds w.handle.enc_fd 0 w.sys done).1 refl, all),
          ground (arith, step, append_assoc w.handle.cpu_ids (added ∷ []) chosen),
        )

    init_config-ok :
        AddsVcpu
        → (config : EnclaveCpuConfig) (w : World D) → NamesNoZero config
        → (init_config D config w).0 ≡ ok tt
        → Added config w.handle.cpu_ids (init_config D config w).1.handle.cpu_ids
    init_config-ok adds (list ids) w named h = init_listed-ok adds ids w named h
    init_config-ok adds (count n) w named h = init_counted-ok adds n w h

    -- After a success of `init_cpus`, for a driver that adds the CPU that is named, chooses one of the pool for
    -- ID 0, and for a list that does not name CPU 0: behind the CPUs that the handle had, it has those of its
    -- configuration, which are all of a list in its order, or as many of the pool as the count says.
    pub init_cpus-ok :
        AddsVcpu
        → (w : World D) → NamesNoZero w.handle.cpu_config
        → (init_cpus D w).0 ≡ ok tt
        → Added w.handle.cpu_config w.handle.cpu_ids (init_cpus D w).1.handle.cpu_ids
    unfolding init_cpus
    init_cpus-ok adds w named h = init_config-ok adds w.handle.cpu_config w named h
