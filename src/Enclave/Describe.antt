-- ===== src/Enclave/Describe.antt =====
-- src/enclave_proc/commands.rs and src/enclave_proc/utils.rs: the description of an enclave.
use aws_nitro_enclaves_cli.Common.{
  ℕ, ◌%◌, ◌==◌, Bool, Option, none, some, List, [], ◌∷◌, if◌then◌else◌,
}
use aws_nitro_enclaves_cli.Exec.{Exec, pure, lift, gets, ◌>>=◌}
use aws_nitro_enclaves_cli.EnclaveId.{generate_enclave_id}
use aws_nitro_enclaves_cli.Enclave.{EnclaveState}
use aws_nitro_enclaves_cli.Enclave.Manager.{
  Manager, get_description_resources, get_measurements, get_metadata, on_system,
}
use aws_nitro_enclaves_cli.Host.{Host, EnclaveDescribeInfo, MetadataDescribeInfo}

-- The debug mode is the lowest bit.
unfoldable pub flags_to_string : ℕ → List ℕ
flags_to_string flags =
    if flags % 2 == 1
    then b'D' ∷ b'E' ∷ b'B' ∷ b'U' ∷ b'G' ∷ b'_' ∷ b'M' ∷ b'O' ∷ b'D' ∷ b'E' ∷ []
    else b'N' ∷ b'O' ∷ b'N' ∷ b'E' ∷ []

-- `EnclaveState::to_string`
abbrev pub state_to_string : EnclaveState → List ℕ
state_to_string EnclaveState.empty = b'E' ∷ b'M' ∷ b'P' ∷ b'T' ∷ b'Y' ∷ []
state_to_string EnclaveState.running = b'R' ∷ b'U' ∷ b'N' ∷ b'N' ∷ b'I' ∷ b'N' ∷ b'G' ∷ []
state_to_string EnclaveState.terminating =
    b'T' ∷ b'E' ∷ b'R' ∷ b'M' ∷ b'I' ∷ b'N' ∷ b'A' ∷ b'T' ∷ b'I' ∷ b'N' ∷ b'G' ∷ []

module _ (H : Host) where
  abbrev fetch_metadata : Bool → Exec (Manager H.driver) (Option H.Metadata)
  fetch_metadata with_metadata = if with_metadata then get_metadata H.driver else pure none

  abbrev map_some : {A B : Type 0} → (A → B) → Option A → Option B
  map_some f none = none
  map_some f (some a) = some (f a)

  -- `MetadataDescribeInfo::new`
  unfoldable pub new_metadata : H.Metadata → MetadataDescribeInfo H.Value
  new_metadata eif_info = record {
    build_time = H.build_time eif_info;
    build_tool = H.build_tool eif_info;
    tool_version = H.build_tool_version eif_info;
    operating_system = H.img_os eif_info;
    kernel_version = H.img_kernel eif_info;
    docker_info = H.docker_info eif_info;
    custom_metadata = H.custom_info eif_info;
  }

  -- What follows the resources, for the CID of the enclave.
  abbrev describe_with :
      Bool
      → ℕ × ℕ × List ℕ × ℕ × ℕ × EnclaveState
      → ℕ
      → Exec (Manager H.driver) (EnclaveDescribeInfo H.Value)
  describe_with with_metadata (slot_uid, cpu_count, cpu_ids, memory_mib, flags, state) enclave_cid =
      do
        meta ← fetch_metadata with_metadata
        tag ← on_system H.driver (λ k. let (t, k') = H.board_tag k in pure t k')
        enclave_id ← lift (generate_enclave_id tag slot_uid)
        measurements ← get_measurements H.driver
        enclave_name ← gets (λ m. m.enclave_name)
        pure (record {
          enclave_name = some enclave_name;
          enclave_id = enclave_id;
          process_id = H.pid;
          enclave_cid = enclave_cid;
          cpu_count = cpu_count;
          cpu_ids = cpu_ids;
          memory_mib = memory_mib;
          state = state_to_string state;
          flags = flags_to_string flags;
          build_info = some measurements;
          img_name = map_some H.img_name meta;
          img_version = map_some H.img_version meta;
          metadata = map_some new_metadata meta;
        })

  -- `none` is the panic of `get_description_resources` on an enclave with no CID.
  unfoldable pub get_enclave_describe_info :
      Bool → Exec (Manager H.driver) (Option (EnclaveDescribeInfo H.Value))
  get_enclave_describe_info with_metadata = do
    resources ← get_description_resources H.driver
    let (slot_uid, cid, cpu_count, cpu_ids, memory_mib, flags, state) = resources
    elim cid [
      | none ↦ pure none
      | some enclave_cid ↦ do
        info ←
            describe_with with_metadata (slot_uid, cpu_count, cpu_ids, memory_mib, flags, state)
              enclave_cid
        pure (some info)
    ]
