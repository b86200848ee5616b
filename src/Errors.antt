-- ===== src/Errors.antt =====
-- src/common/document_errors.rs: the codes of the errors and the texts for them.
pub mod Details
pub mod Explanations
pub mod Documented
mod Tests
use text.Mathlib.Text.{◌==◌ as str_eq}
use Prim.Native.String.{String, ◌++◌ as append}
use aws_nitro_enclaves_cli.Common.{
  ℕ, zero, suc, Bool, Option, none, some, List, [], ◌∷◌, if◌then◌else◌,
}
use aws_nitro_enclaves_cli.Failure.{
  NitroCliErrorEnum, unspecified_error, missing_argument, conflicting_argument, invalid_argument,
  socket_pair_creation_failure, process_spawn_failure, daemonize_process_failure,
  read_from_disk_failure, unusable_connection_error, socket_close_error,
  socket_connect_timeout_error, socket_error, epoll_error, inotify_error, invalid_command,
  lock_acquire_failure, thread_join_failure, serde_error, file_permissions_error,
  file_operation_failure, invalid_cpu_configuration, no_such_cpu_available_in_pool,
  insufficient_cpus, malformed_cpu_id, cpu_error, no_such_hugepage_flag,
  insufficient_memory_requested, insufficient_memory_available, invalid_enclave_fd, ioctl_failure,
  ioctl_image_load_info_failure, ioctl_set_memory_region_failure, ioctl_add_vcpu_failure,
  ioctl_enclave_start_failure, memory_overflow, eif_parsing_error, enclave_boot_failure,
  enclave_event_wait_error, enclave_process_command_not_executed,
  enclave_process_connection_failure, socket_path_not_found, enclave_process_send_reply_failure,
  enclave_mmap_error, enclave_munmap_error, enclave_console_connection_failure,
  enclave_console_read_error, enclave_console_write_output_error, integer_parsing_error,
  eif_building_error, docker_image_build_error, docker_image_pull_error, artifacts_path_not_set,
  blobs_path_not_set, clock_skew_error, signal_masking_error, signal_unmasking_error, logger_error,
  hasher_error, enclave_naming_error, eif_signature_checker_error,
}

-- `ERROR_CODES`
unfoldable pub error_code : NitroCliErrorEnum → String
error_code unspecified_error = "E00"
error_code missing_argument = "E01"
error_code conflicting_argument = "E02"
error_code invalid_argument = "E03"
error_code socket_pair_creation_failure = "E04"
error_code process_spawn_failure = "E05"
error_code daemonize_process_failure = "E06"
error_code read_from_disk_failure = "E07"
error_code unusable_connection_error = "E08"
error_code socket_close_error = "E09"
error_code socket_connect_timeout_error = "E10"
error_code socket_error = "E11"
error_code epoll_error = "E12"
error_code inotify_error = "E13"
error_code invalid_command = "E14"
error_code lock_acquire_failure = "E15"
error_code thread_join_failure = "E16"
error_code serde_error = "E17"
error_code file_permissions_error = "E18"
error_code file_operation_failure = "E19"
error_code invalid_cpu_configuration = "E20"
error_code no_such_cpu_available_in_pool = "E21"
error_code insufficient_cpus = "E22"
error_code malformed_cpu_id = "E23"
error_code cpu_error = "E24"
error_code no_such_hugepage_flag = "E25"
error_code insufficient_memory_requested = "E26"
error_code insufficient_memory_available = "E27"
error_code invalid_enclave_fd = "E28"
error_code ioctl_failure = "E29"
error_code ioctl_image_load_info_failure = "E30"
error_code ioctl_set_memory_region_failure = "E31"
error_code ioctl_add_vcpu_failure = "E32"
error_code ioctl_enclave_start_failure = "E33"
error_code memory_overflow = "E34"
error_code eif_parsing_error = "E35"
error_code enclave_boot_failure = "E36"
error_code enclave_event_wait_error = "E37"
error_code enclave_process_command_not_executed = "E38"
error_code enclave_process_connection_failure = "E39"
error_code socket_path_not_found = "E40"
error_code enclave_process_send_reply_failure = "E41"
error_code enclave_mmap_error = "E42"
error_code enclave_munmap_error = "E43"
error_code enclave_console_connection_failure = "E44"
error_code enclave_console_read_error = "E45"
error_code enclave_console_write_output_error = "E46"
error_code integer_parsing_error = "E47"
error_code eif_building_error = "E48"
error_code docker_image_build_error = "E49"
error_code docker_image_pull_error = "E50"
error_code artifacts_path_not_set = "E51"
error_code blobs_path_not_set = "E52"
error_code clock_skew_error = "E53"
error_code signal_masking_error = "E54"
error_code signal_unmasking_error = "E55"
error_code logger_error = "E56"
error_code hasher_error = "E57"
error_code enclave_naming_error = "E58"
error_code eif_signature_checker_error = "E59"

-- The `match` on a code, as the list of its arms.
unfoldable pub find_text {ℓ} : {A : Type ℓ} → List (String × A) → String → Option A
find_text [] code = none
find_text ((c, text) ∷ arms) code = if str_eq c code then some text else find_text arms code

-- `additional_info.get(place).unwrap_or(&info_placeholder)`
unfoldable pub info_at : ℕ → List String → String
info_at place [] = "MISSING_INFO"
info_at zero (i ∷ is) = i
info_at (suc place) (i ∷ is) = info_at place is

-- `format!` with pieces one behind the other.
unfoldable pub concat_all : List String → String
concat_all [] = ""
concat_all (s ∷ ss) = append s (concat_all ss)
