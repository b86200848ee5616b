-- ===== src/Comm/Replies.antt =====
-- When the replies of all processes make a command a success.
use aws_nitro_enclaves_cli.Common.{
  ℕ, suc, ◌+◌, ◌-◌, ◌≤◌, ◌≡◌, refl, ◌↔◌, Bool, true, Option, none, some, List, [], ◌∷◌, map, arith,
  length, ◌⊎◌, inl, inr,
}
use aws_nitro_enclaves_cli.Common.Int.{ℤ}
use aws_nitro_enclaves_cli.Failure.{NitroCliResult, ok, err, exit}
use aws_nitro_enclaves_cli.Wire.{Codec}
use aws_nitro_enclaves_cli.Connection.Stream.{EnclaveProcessReply, Stream}
use aws_nitro_enclaves_cli.Comm.{Json}
use aws_nitro_enclaves_cli.Comm.Output.{
  enclave_proc_handle_output, count_object, enclave_proc_handle_outputs, allowed, not_allowed,
  print_all, verdict, enclave_process_handle_all_replies,
}

module _ (codec : Codec EnclaveProcessReply) {T : Type 0} (json : Json T) where
  -- Each connection has yielded the object at its place, and a status that is allowed.
  abbrev pub Yields : List ℤ → List Stream → List T → Type 0
  Yields codes [] [] = Unit
  Yields codes (conn ∷ conns) (object ∷ objects) =
      ((code : ℤ) × (enclave_proc_handle_output codec json conn ≡ (some object, some code))
        × (allowed codec json codes code ≡ true))
      × Yields codes conns objects
  Yields codes _ _ = ⊥

  -- The list holds a status that is allowed for each connection, and an object.
  abbrev Good : List ℤ → List Stream → List (T × ℤ) → Type 0
  Good codes conns objects =
      (not_allowed codec json codes objects ≡ 0) × (length objects ≡ length conns)

  length-count_object :
      (o : Option T × Option ℤ) (objects : List (T × ℤ))
      → (length (count_object codec json o objects) ≡ suc (length objects))
          × ((object : T) × (code : ℤ) × (o ≡ (some object, some code))
              × (count_object codec json o objects ≡ (object, code) ∷ objects))
        ⊎ (length (count_object codec json o objects) ≡ length objects)
  length-count_object (some object, some code) objects = inl (refl, (object, code, refl, refl))
  length-count_object (some object, none) objects = inr refl
  length-count_object (none, status) objects = inr refl

  length-outputs-le :
      (conns : List Stream) → length (enclave_proc_handle_outputs codec json conns) ≤ length conns
  unfolding enclave_proc_handle_outputs
  length-outputs-le [] = omega arith
  length-outputs-le (conn ∷ conns) =
      elim (length-count_object (enclave_proc_handle_output codec json conn)
        (enclave_proc_handle_outputs codec json conns)) [
          | inl (e, _) ↦ omega (arith, length-outputs-le conns)
          | inr e ↦ omega (arith, length-outputs-le conns)
        ]

  head-allowed :
      (codes : List ℤ) (object : T) (code : ℤ) (objects : List (T × ℤ))
      → not_allowed codec json codes ((object, code) ∷ objects) ≡ 0
      → allowed codec json codes code ≡ true
  unfolding not_allowed
  head-allowed codes object code objects h = ground arith

  verdict_iff :
      (refused failed_conns : ℕ) (values objects : List T) (r : NitroCliResult (Unit {0}))
      → (verdict codec json refused failed_conns values r ≡ ok objects)
        ↔ ((refused ≡ 0) × (failed_conns ≡ 0) × (values ≡ objects) × (r ≡ ok tt))
  verdict_iff refused failed_conns values objects (ok _) = ground arith
  verdict_iff refused failed_conns values objects (err e) = ground arith
  verdict_iff refused failed_conns values objects (exit e) = ground arith

  Good-Yields :
      (codes : List ℤ) (conns : List Stream)
      → Good codes conns (enclave_proc_handle_outputs codec json conns)
      → Yields codes conns (map (λ v. v.0) (enclave_proc_handle_outputs codec json conns))
  unfolding enclave_proc_handle_outputs not_allowed
  Good-Yields codes [] good = tt
  Good-Yields codes (conn ∷ conns) good =
      elim (length-count_object (enclave_proc_handle_output codec json conn)
        (enclave_proc_handle_outputs codec json conns)) [
          | inl (e, (object, code, o, c)) ↦
              let good' = rw c at good in
              rw c (
                (
                  code,
                  o,
                  head-allowed codes object code (enclave_proc_handle_outputs codec json conns)
                      good'.0,
                ),
                Good-Yields codes conns (ground (arith, good'.0), ground (arith, good'.1)),
              )
          | inr e ↦ absurd (omega (arith, length-outputs-le conns, good))
        ]

  Yields-Good :
      (codes : List ℤ) (conns : List Stream) (objects : List T)
      → Yields codes conns objects
      → Good codes conns (enclave_proc_handle_outputs codec json conns)
        × (map (λ v. v.0) (enclave_proc_handle_outputs codec json conns) ≡ objects)
  unfolding enclave_proc_handle_outputs not_allowed
  Yields-Good codes [] [] y = ((refl, refl), refl)
  Yields-Good codes (conn ∷ conns) (object ∷ objects) ((code, o, a), y) =
      let ((refused, same), values) = Yields-Good codes conns objects y in
      rw (o, a, values) ((omega arith, omega arith), refl)
  Yields-Good codes [] (object ∷ objects) y = absurd y
  Yields-Good codes (conn ∷ conns) [] y = absurd y

  -- The replies of all processes make a success with these objects exactly if no connection failed
  -- before, each connection has yielded its object with an allowed status, and the objects can be
  -- printed.
  pub handle_all_replies_iff :
      (conns : List Stream) (prev_failed_conns : ℕ) (print_as_vec : Bool) (codes : List ℤ)
      (objects : List T)
      → (enclave_process_handle_all_replies codec json conns prev_failed_conns print_as_vec codes
          ≡ ok objects)
        ↔ ((prev_failed_conns ≡ 0)
            × Yields codes conns objects
            × (print_all codec json print_as_vec objects ≡ ok tt))
  unfolding enclave_process_handle_all_replies
  handle_all_replies_iff conns prev_failed_conns print_as_vec codes objects =
      let outputs = enclave_proc_handle_outputs codec json conns in
      let values : List T = map (λ v. v.0) outputs in
      let decided =
        verdict_iff (not_allowed codec json codes outputs)
          (prev_failed_conns + length conns - length outputs) values objects
          (print_all codec json print_as_vec values) in
      (
        λ success.
            let (refused, failed, same, printed) = decided.0 success in
            let bound = length-outputs-le conns in
            (
              omega arith,
              rw same at (Good-Yields codes conns (refused, omega arith)),
              rw same at printed,
            ),
        λ (none_failed, y, printed).
            let ((refused, yielded), same) = Yields-Good codes conns objects y in
            decided.1 (refused, omega arith, same, rw same printed),
      )
