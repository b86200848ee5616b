-- ===== src/Cpu/Config.antt =====
-- src/enclave_proc/cpu_info.rs: the CPU configuration of a request against the pool. The pool is
-- the field `cpu_ids` of `CpuInfo`.
use aws_nitro_enclaves_cli.Common.{
  ℕ, ◌≤◌, ◌≡◌, refl, sym, ap, ◌∙◌, ◌≢◌, ◌↔◌, true, Option, none, some, List, [], ◌∷◌, arith, ltb,
  if◌then◌else◌, length,
}
use mathlib.Core.Path.{subst}
use aws_nitro_enclaves_cli.Failure.{
  NitroCliResult, ok, err, ◌>>◌, invalid_cpu_configuration, no_such_cpu_available_in_pool,
  insufficient_cpus, invalid_argument,
}
use aws_nitro_enclaves_cli.Cpu.UniqueIds.{
  contains, insert_all, Distinct, contains-insert_all, length-insert_all, Distinct-of_length,
}
use aws_nitro_enclaves_cli.Args.{RunEnclavesArgs}

pub record CpuInfo : Type 0 where
  pub cpu_ids : List ℕ

pub data EnclaveCpuConfig : Type 0 where
  list : List ℕ → EnclaveCpuConfig
  count : ℕ → EnclaveCpuConfig

-- The loop over the unique IDs.
unfoldable pub check_available : List ℕ → List ℕ → NitroCliResult (Unit {0})
check_available pool [] = ok tt
check_available pool (id ∷ ids) =
    let rest = check_available pool ids in
    if contains pool id then rest else err no_such_cpu_available_in_pool

unfoldable pub check_cpu_ids : CpuInfo → List ℕ → NitroCliResult (Unit {0})
check_cpu_ids info cpu_ids =
    let unique_ids = insert_all [] cpu_ids in
    if ltb (length unique_ids) (length cpu_ids)
    then err invalid_cpu_configuration
    else check_available info.cpu_ids unique_ids

abbrev config_of : CpuInfo → Option (List ℕ) → Option ℕ → NitroCliResult EnclaveCpuConfig
config_of info (some cpu_ids) cpu_count = do check_cpu_ids info cpu_ids; ok (list cpu_ids)
config_of info none (some cpu_count) =
    if ltb (length info.cpu_ids) cpu_count then err insufficient_cpus else ok (count cpu_count)
config_of info none none = err invalid_argument

unfoldable pub get_cpu_config : CpuInfo → RunEnclavesArgs → NitroCliResult EnclaveCpuConfig
get_cpu_config info args = config_of info args.cpu_ids args.cpu_count

-- Every ID stands in the pool.
abbrev pub AllIn : List ℕ → List ℕ → Type 0
AllIn pool ids = (a : ℕ) → contains ids a ≡ true → contains pool a ≡ true

check_available-AllIn : (pool ids : List ℕ) → check_available pool ids ≡ ok tt → AllIn pool ids
unfolding check_available contains
check_available-AllIn pool [] h a e = cc
check_available-AllIn pool (id ∷ ids) h a e =
    ground (arith, check_available-AllIn pool ids (ground arith) a)

AllIn-check_available : (pool ids : List ℕ) → AllIn pool ids → check_available pool ids ≡ ok tt
unfolding check_available contains
AllIn-check_available pool [] h = refl
AllIn-check_available pool (id ∷ ids) h =
    ground (arith, h id, AllIn-check_available pool ids (λ a e. ground (arith, h a)))

-- A list of CPU IDs is accepted exactly if no ID stands twice in it and each stands in the pool.
check_cpu_ids_iff :
    (info : CpuInfo) (ids : List ℕ)
    → (check_cpu_ids info ids ≡ ok tt) ↔ (Distinct ids × AllIn info.cpu_ids ids)
unfolding check_cpu_ids
check_cpu_ids_iff info ids = (accepted, accepts)
  where
    unique : List ℕ
    unique = insert_all [] ids

    same : (a : ℕ) → contains unique a ≡ contains ids a
    same a = unfold contains in contains-insert_all a [] ids

    accepted : check_cpu_ids info ids ≡ ok tt → Distinct ids × AllIn info.cpu_ids ids
    accepted h = (
      (Distinct-of_length [] ids (ground arith)).0,
      λ a e. check_available-AllIn info.cpu_ids unique (ground arith) a (same a ∙ e),
    )

    accepts : Distinct ids × AllIn info.cpu_ids ids → check_cpu_ids info ids ≡ ok tt
    accepts h = ground (
      arith,
      length-insert_all [] ids h.0 (λ a e. unfold contains in refl),
      AllIn-check_available info.cpu_ids unique (λ a e. h.1 a (sym (same a) ∙ e)),
    )

check_available-ne-invalid :
    (pool ids : List ℕ) → check_available pool ids ≢ err invalid_cpu_configuration
unfolding check_available
check_available-ne-invalid pool [] = λ h. cc
check_available-ne-invalid pool (id ∷ ids) = ground (arith, check_available-ne-invalid pool ids)

-- A list is refused as an invalid configuration exactly if some ID stands twice in it.
check_cpu_ids-invalid_iff :
    (info : CpuInfo) (ids : List ℕ)
    → (check_cpu_ids info ids ≡ err invalid_cpu_configuration) ↔ ¬ Distinct ids
unfolding check_cpu_ids
check_cpu_ids-invalid_iff info ids = (
  λ refused distinct. ground (
    arith,
    length-insert_all [] ids distinct (λ a e. unfold contains in refl),
    check_available-ne-invalid info.cpu_ids (insert_all [] ids),
  ),
  λ twice. ground (
    arith,
    λ (h : length ids ≤ length (insert_all [] ids)).
        twice (Distinct-of_length [] ids (omega arith)).0,
  ),
)

-- What the program may hand on for the arguments of a request: a list of distinct IDs of the pool,
-- or, where no list is given, a count of no more CPUs than the pool has.
abbrev pub IsConfig : CpuInfo → RunEnclavesArgs → EnclaveCpuConfig → Type 0
IsConfig info args (list ids) = (args.cpu_ids ≡ some ids) × Distinct ids × AllIn info.cpu_ids ids
IsConfig info args (count n) =
    (args.cpu_ids ≡ none) × (args.cpu_count ≡ some n) × (n ≤ length info.cpu_ids)

-- A request is given a list of CPUs exactly if it names that list, no ID stands twice in it and each
-- stands in the pool; it is given a count exactly if it names no list, but that count, and the pool
-- has as many CPUs.
pub get_cpu_config_iff :
    (info : CpuInfo) (args : RunEnclavesArgs) (c : EnclaveCpuConfig)
    → (get_cpu_config info args ≡ ok c) ↔ IsConfig info args c
unfolding get_cpu_config
get_cpu_config_iff info args c = go args.cpu_ids args.cpu_count c
  where
    legal : List ℕ → Type 0
    legal ids = Distinct ids × AllIn info.cpu_ids ids

    allowed : Option (List ℕ) → Option ℕ → EnclaveCpuConfig → Type 0
    allowed given number (list ids) = (given ≡ some ids) × Distinct ids × AllIn info.cpu_ids ids
    allowed given number (count n) = (given ≡ none) × (number ≡ some n) × (n ≤ length info.cpu_ids)

    go :
        (given : Option (List ℕ)) (number : Option ℕ) (c : EnclaveCpuConfig)
        → (config_of info given number ≡ ok c) ↔ allowed given number c
    go (some given) number (list ids) = (
      λ h.
          let checked : check_cpu_ids info given ≡ ok tt = ground arith in
          let same : given ≡ ids = ground arith in
          let (distinct, inside) = subst legal same ((check_cpu_ids_iff info given).0 checked) in
          (ap some same, distinct, inside),
      λ h.
          let same : ids ≡ given = ground arith in
          let checked : check_cpu_ids info given ≡ ok tt =
            (check_cpu_ids_iff info given).1 (subst legal same (h.1, h.2)) in
          ground arith,
    )
    go (some given) number (count n) = ground arith
    go none (some number) (list ids) = ground arith
    go none (some number) (count n) = ground arith
    go none none (list ids) = ground arith
    go none none (count n) = ground arith
