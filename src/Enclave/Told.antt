-- ===== src/Enclave/Told.antt =====
-- What the description of an enclave tells of it.
use aws_nitro_enclaves_cli.Common.{
  ℕ, ◌^◌, ◌<◌, ◌%◌, ◌≡◌, ◌↔◌, refl, arith, length, Bool, true, false, Option, none, some, List, [],
  ◌∷◌,
}
use aws_nitro_enclaves_cli.Failure.{ok}
use aws_nitro_enclaves_cli.EnclaveId.{generate_enclave_id, get_slot_id}
use aws_nitro_enclaves_cli.EnclaveId.RoundTrip.{HasPlainTag, get_slot_id-generate_enclave_id}
use aws_nitro_enclaves_cli.Enclave.Manager.{
  Manager, get_description_resources, get_measurements, get_metadata,
}
use aws_nitro_enclaves_cli.Enclave.Describe.{
  flags_to_string, state_to_string, new_metadata, get_enclave_describe_info,
}
use aws_nitro_enclaves_cli.Host.{Host, EnclaveDescribeInfo, MetadataDescribeInfo}

-- "DEBUG_MODE"
abbrev pub debug_mode_text : List ℕ
debug_mode_text = b'D' ∷ b'E' ∷ b'B' ∷ b'U' ∷ b'G' ∷ b'_' ∷ b'M' ∷ b'O' ∷ b'D' ∷ b'E' ∷ []

flags_to_string_iff : (flags : ℕ) → (flags_to_string flags ≡ debug_mode_text) ↔ (flags % 2 ≡ 1)
unfolding flags_to_string
flags_to_string_iff flags = ((λ e. ground arith), (λ e. ground arith))

module _ (H : Host) where
  -- What is told of the metadata of an image: nothing, or each field, with its name and version.
  abbrev pub TellsImage : Bool → Option H.Metadata → EnclaveDescribeInfo H.Value → Type 0
  TellsImage true (some meta) info =
      (info.img_name ≡ some (H.img_name meta))
      × (info.img_version ≡ some (H.img_version meta))
      × ((d : MetadataDescribeInfo H.Value) × (info.metadata ≡ some d)
          × (d.build_time ≡ H.build_time meta)
          × (d.build_tool ≡ H.build_tool meta)
          × (d.tool_version ≡ H.build_tool_version meta)
          × (d.operating_system ≡ H.img_os meta)
          × (d.kernel_version ≡ H.img_kernel meta)
          × (d.docker_info ≡ H.docker_info meta)
          × (d.custom_metadata ≡ H.custom_info meta))
  TellsImage _ _ info = (info.img_name ≡ none) × (info.img_version ≡ none) × (info.metadata ≡ none)

  enclave_id-describe :
      (with_metadata : Bool) (m : Manager H.driver) (info : EnclaveDescribeInfo H.Value)
      → (get_enclave_describe_info H with_metadata m).0 ≡ ok (some info)
      → generate_enclave_id (H.board_tag m.world.sys).0 m.world.handle.slot_uid ≡ ok info.enclave_id
  unfolding get_enclave_describe_info get_description_resources get_measurements get_metadata
  enclave_id-describe with_metadata m info h = ground arith

  flags-describe :
      (with_metadata : Bool) (m : Manager H.driver) (info : EnclaveDescribeInfo H.Value)
      → (get_enclave_describe_info H with_metadata m).0 ≡ ok (some info)
      → info.flags ≡ flags_to_string m.world.handle.flags
  unfolding get_enclave_describe_info get_description_resources get_measurements get_metadata
  flags-describe with_metadata m info h = ground arith

  describe-TellsImage :
      (with_metadata : Bool) (meta : Option H.Metadata) (m : Manager H.driver)
      (info : EnclaveDescribeInfo H.Value)
      → m.world.handle.metadata ≡ meta
      → (get_enclave_describe_info H with_metadata m).0 ≡ ok (some info)
      → TellsImage with_metadata meta info
  unfolding get_enclave_describe_info get_description_resources get_measurements get_metadata
      new_metadata
  describe-TellsImage true (some meta) m info is h =
      let told : info.metadata ≡ some (new_metadata H meta) = ground arith in
      (
        ground arith,
        ground arith,
        (new_metadata H meta, told, refl, refl, refl, refl, refl, refl, refl),
      )
  describe-TellsImage true none m info is h = ground arith
  describe-TellsImage false meta m info is h = ground arith

  -- A description that succeeds, for a slot ID of 64 bits and a board whose asset tag has no letter n or whose
  -- file is missing: its ID leads back to the slot of the enclave, its CID, CPUs, memory, state and measurements are those
  -- of the enclave, it says DEBUG_MODE exactly where the lowest bit of the flags is set, and it tells the fields of the
  -- image's metadata if and only if they are asked for and known. The handle stays as it is.
  pub get_enclave_describe_info-ok :
      (with_metadata : Bool) (m : Manager H.driver) (info : EnclaveDescribeInfo H.Value)
      → m.world.handle.slot_uid < 2 ^ 64
      → HasPlainTag (H.board_tag m.world.sys).0
      → (get_enclave_describe_info H with_metadata m).0 ≡ ok (some info)
      → (get_slot_id info.enclave_id ≡ some m.world.handle.slot_uid)
        × (m.world.handle.enclave_cid ≡ some info.enclave_cid)
        × (info.cpu_ids ≡ m.world.handle.cpu_ids)
        × (info.cpu_count ≡ length info.cpu_ids)
        × (info.memory_mib ≡ m.world.handle.allocated_memory_mib)
        × (info.state ≡ state_to_string m.world.handle.state)
        × (info.build_info ≡ some m.world.handle.build_info)
        × ((info.flags ≡ debug_mode_text) ↔ (m.world.handle.flags % 2 ≡ 1))
        × TellsImage with_metadata m.world.handle.metadata info
        × ((get_enclave_describe_info H with_metadata m).1.world.handle ≡ m.world.handle)
  unfolding get_enclave_describe_info get_description_resources get_measurements get_metadata
  get_enclave_describe_info-ok with_metadata m info small plain h = (
    get_slot_id-generate_enclave_id (H.board_tag m.world.sys).0 m.world.handle.slot_uid
        info.enclave_id small plain (enclave_id-describe with_metadata m info h),
    ground arith,
    ground arith,
    ground arith,
    ground arith,
    ground arith,
    ground arith,
    rw (flags-describe with_metadata m info h) (flags_to_string_iff m.world.handle.flags),
    describe-TellsImage with_metadata m.world.handle.metadata m info refl h,
    ground arith,
  )
