-- ===== src/Errors/Documented.antt =====
-- Which errors are documented.
use aws_nitro_enclaves_cli.Common.{◌≡◌, refl, ◌↔◌, Bool, true, false, Option, none, some}
use aws_nitro_enclaves_cli.Failure.{
  NitroCliErrorEnum, unspecified_error, missing_argument, conflicting_argument, invalid_argument,
  socket_pair_creation_failure, process_spawn_failure, daemonize_process_failure,
  read_from_disk_failure, unusable_connection_error, socket_close_error,
  socket_connect_timeout_error, socket_error, epoll_error, inotify_error, invalid_command,
  lock_acquire_failure, thread_join_failure, serde_error, file_permissions_error,
  file_operation_failure, invalid_cpu_configuration, no_such_cpu_available_in_pool,
  insufficient_cpus, malformed_cpu_id, cpu_error, no_such_hugepage_flag,
  insufficient_memory_requested, insufficient_memory_available, invalid_enclave_fd, ioctl_failure,
  ioctl_image_load_info_failure, ioctl_set_memory_region_failure, ioctl_add_vcpu_failure,
  ioctl_enclave_start_failure, memory_overflow, eif_parsing_error, enclave_boot_failure,
  enclave_event_wait_error, enclave_process_command_not_executed,
  enclave_process_connection_failure, socket_path_not_found, enclave_process_send_reply_failure,
  enclave_mmap_error, enclave_munmap_error, enclave_console_connection_failure,
  enclave_console_read_error, enclave_console_write_output_error, integer_parsing_error,
  eif_building_error, docker_image_build_error, docker_image_pull_error, artifacts_path_not_set,
  blobs_path_not_set, clock_skew_error, signal_masking_error, signal_unmasking_error, logger_error,
  hasher_error, enclave_naming_error, eif_signature_checker_error,
}
use aws_nitro_enclaves_cli.Errors.{error_code, find_text}
use aws_nitro_enclaves_cli.Errors.Details.{details}
use aws_nitro_enclaves_cli.Errors.Explanations.{explanations}

-- The errors without an explanation.
abbrev pub IsUnexplained : NitroCliErrorEnum → Type 0
IsUnexplained hasher_error = Unit
IsUnexplained enclave_naming_error = Unit
IsUnexplained eif_signature_checker_error = Unit
IsUnexplained _ = ⊥

abbrev pub is_some {ℓ} : {A : Type ℓ} → Option A → Bool
is_some none = false
is_some (some a) = true

detailed : (e : NitroCliErrorEnum) → is_some (find_text details (error_code e)) ≡ true
unfolding error_code find_text details
detailed unspecified_error = refl
detailed missing_argument = refl
detailed conflicting_argument = refl
detailed invalid_argument = refl
detailed socket_pair_creation_failure = refl
detailed process_spawn_failure = refl
detailed daemonize_process_failure = refl
detailed read_from_disk_failure = refl
detailed unusable_connection_error = refl
detailed socket_close_error = refl
detailed socket_connect_timeout_error = refl
detailed socket_error = refl
detailed epoll_error = refl
detailed inotify_error = refl
detailed invalid_command = refl
detailed lock_acquire_failure = refl
detailed thread_join_failure = refl
detailed serde_error = refl
detailed file_permissions_error = refl
detailed file_operation_failure = refl
detailed invalid_cpu_configuration = refl
detailed no_such_cpu_available_in_pool = refl
detailed insufficient_cpus = refl
detailed malformed_cpu_id = refl
detailed cpu_error = refl
detailed no_such_hugepage_flag = refl
detailed insufficient_memory_requested = refl
detailed insufficient_memory_available = refl
detailed invalid_enclave_fd = refl
detailed ioctl_failure = refl
detailed ioctl_image_load_info_failure = refl
detailed ioctl_set_memory_region_failure = refl
detailed ioctl_add_vcpu_failure = refl
detailed ioctl_enclave_start_failure = refl
detailed memory_overflow = refl
detailed eif_parsing_error = refl
detailed enclave_boot_failure = refl
detailed enclave_event_wait_error = refl
detailed enclave_process_command_not_executed = refl
detailed enclave_process_connection_failure = refl
detailed socket_path_not_found = refl
detailed enclave_process_send_reply_failure = refl
detailed enclave_mmap_error = refl
detailed enclave_munmap_error = refl
detailed enclave_console_connection_failure = refl
detailed enclave_console_read_error = refl
detailed enclave_console_write_output_error = refl
detailed integer_parsing_error = refl
detailed eif_building_error = refl
detailed docker_image_build_error = refl
detailed docker_image_pull_error = refl
detailed artifacts_path_not_set = refl
detailed blobs_path_not_set = refl
detailed clock_skew_error = refl
detailed signal_masking_error = refl
detailed signal_unmasking_error = refl
detailed logger_error = refl
detailed hasher_error = refl
detailed enclave_naming_error = refl
detailed eif_signature_checker_error = refl

explained :
    (e : NitroCliErrorEnum)
    → (is_some (find_text explanations (error_code e)) ≡ false) ↔ IsUnexplained e
unfolding error_code find_text explanations
explained unspecified_error = (λ h. cc, λ h. absurd h)
explained missing_argument = (λ h. cc, λ h. absurd h)
explained conflicting_argument = (λ h. cc, λ h. absurd h)
explained invalid_argument = (λ h. cc, λ h. absurd h)
explained socket_pair_creation_failure = (λ h. cc, λ h. absurd h)
explained process_spawn_failure = (λ h. cc, λ h. absurd h)
explained daemonize_process_failure = (λ h. cc, λ h. absurd h)
explained read_from_disk_failure = (λ h. cc, λ h. absurd h)
explained unusable_connection_error = (λ h. cc, λ h. absurd h)
explained socket_close_error = (λ h. cc, λ h. absurd h)
explained socket_connect_timeout_error = (λ h. cc, λ h. absurd h)
explained socket_error = (λ h. cc, λ h. absurd h)
explained epoll_error = (λ h. cc, λ h. absurd h)
explained inotify_error = (λ h. cc, λ h. absurd h)
explained invalid_command = (λ h. cc, λ h. absurd h)
explained lock_acquire_failure = (λ h. cc, λ h. absurd h)
explained thread_join_failure = (λ h. cc, λ h. absurd h)
explained serde_error = (λ h. cc, λ h. absurd h)
explained file_permissions_error = (λ h. cc, λ h. absurd h)
explained file_operation_failure = (λ h. cc, λ h. absurd h)
explained invalid_cpu_configuration = (λ h. cc, λ h. absurd h)
explained no_such_cpu_available_in_pool = (λ h. cc, λ h. absurd h)
explained insufficient_cpus = (λ h. cc, λ h. absurd h)
explained malformed_cpu_id = (λ h. cc, λ h. absurd h)
explained cpu_error = (λ h. cc, λ h. absurd h)
explained no_such_hugepage_flag = (λ h. cc, λ h. absurd h)
explained insufficient_memory_requested = (λ h. cc, λ h. absurd h)
explained insufficient_memory_available = (λ h. cc, λ h. absurd h)
explained invalid_enclave_fd = (λ h. cc, λ h. absurd h)
explained ioctl_failure = (λ h. cc, λ h. absurd h)
explained ioctl_image_load_info_failure = (λ h. cc, λ h. absurd h)
explained ioctl_set_memory_region_failure = (λ h. cc, λ h. absurd h)
explained ioctl_add_vcpu_failure = (λ h. cc, λ h. absurd h)
explained ioctl_enclave_start_failure = (λ h. cc, λ h. absurd h)
explained memory_overflow = (λ h. cc, λ h. absurd h)
explained eif_parsing_error = (λ h. cc, λ h. absurd h)
explained enclave_boot_failure = (λ h. cc, λ h. absurd h)
explained enclave_event_wait_error = (λ h. cc, λ h. absurd h)
explained enclave_process_command_not_executed = (λ h. cc, λ h. absurd h)
explained enclave_process_connection_failure = (λ h. cc, λ h. absurd h)
explained socket_path_not_found = (λ h. cc, λ h. absurd h)
explained enclave_process_send_reply_failure = (λ h. cc, λ h. absurd h)
explained enclave_mmap_error = (λ h. cc, λ h. absurd h)
explained enclave_munmap_error = (λ h. cc, λ h. absurd h)
explained enclave_console_connection_failure = (λ h. cc, λ h. absurd h)
explained enclave_console_read_error = (λ h. cc, λ h. absurd h)
explained enclave_console_write_output_error = (λ h. cc, λ h. absurd h)
explained integer_parsing_error = (λ h. cc, λ h. absurd h)
explained eif_building_error = (λ h. cc, λ h. absurd h)
explained docker_image_build_error = (λ h. cc, λ h. absurd h)
explained docker_image_pull_error = (λ h. cc, λ h. absurd h)
explained artifacts_path_not_set = (λ h. cc, λ h. absurd h)
explained blobs_path_not_set = (λ h. cc, λ h. absurd h)
explained clock_skew_error = (λ h. cc, λ h. absurd h)
explained signal_masking_error = (λ h. cc, λ h. absurd h)
explained signal_unmasking_error = (λ h. cc, λ h. absurd h)
explained logger_error = (λ h. cc, λ h. absurd h)
explained hasher_error = (λ h. tt, λ h. refl)
explained enclave_naming_error = (λ h. tt, λ h. refl)
explained eif_signature_checker_error = (λ h. tt, λ h. refl)

-- Each error has a text that goes with its message, and the command `explain` has a text for its code
-- unless the error is that of a hasher, of a name or of a signature.
pub documented_iff :
    (e : NitroCliErrorEnum)
    → (is_some (find_text details (error_code e)) ≡ true)
      × ((is_some (find_text explanations (error_code e)) ≡ false) ↔ IsUnexplained e)
documented_iff e = (detailed e, explained e)
