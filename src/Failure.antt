-- ===== src/Failure.antt =====
-- src/common/mod.rs: the error codes, and the results of the fallible functions. Of a
-- `NitroCliFailure` the model keeps the error code: the action, the subactions and the additional
-- information are texts for the user that no code branches on.

-- In the order of the discriminants, from 0.
pub data NitroCliErrorEnum : Type 0 where
  unspecified_error missing_argument conflicting_argument invalid_argument : NitroCliErrorEnum
  socket_pair_creation_failure process_spawn_failure daemonize_process_failure : NitroCliErrorEnum
  read_from_disk_failure unusable_connection_error socket_close_error : NitroCliErrorEnum
  socket_connect_timeout_error socket_error epoll_error inotify_error invalid_command :
      NitroCliErrorEnum
  lock_acquire_failure thread_join_failure serde_error file_permissions_error : NitroCliErrorEnum
  file_operation_failure invalid_cpu_configuration no_such_cpu_available_in_pool : NitroCliErrorEnum
  insufficient_cpus malformed_cpu_id cpu_error no_such_hugepage_flag : NitroCliErrorEnum
  insufficient_memory_requested insufficient_memory_available invalid_enclave_fd ioctl_failure :
      NitroCliErrorEnum
  ioctl_image_load_info_failure ioctl_set_memory_region_failure ioctl_add_vcpu_failure :
      NitroCliErrorEnum
  ioctl_enclave_start_failure memory_overflow eif_parsing_error enclave_boot_failure :
      NitroCliErrorEnum
  enclave_event_wait_error enclave_process_command_not_executed : NitroCliErrorEnum
  enclave_process_connection_failure socket_path_not_found enclave_process_send_reply_failure :
      NitroCliErrorEnum
  enclave_mmap_error enclave_munmap_error enclave_console_connection_failure : NitroCliErrorEnum
  enclave_console_read_error enclave_console_write_output_error integer_parsing_error :
      NitroCliErrorEnum
  eif_building_error docker_image_build_error docker_image_pull_error artifacts_path_not_set :
      NitroCliErrorEnum
  blobs_path_not_set clock_skew_error signal_masking_error signal_unmasking_error logger_error :
      NitroCliErrorEnum
  hasher_error enclave_naming_error eif_signature_checker_error : NitroCliErrorEnum

-- `exit` is the end of the process by `ok_or_exit_with_errno`, with its error code.
pub data NitroCliResult {ℓ} (A : Type ℓ) : Type ℓ where
  ok : A → NitroCliResult A
  err : NitroCliErrorEnum → NitroCliResult A
  exit : NitroCliErrorEnum → NitroCliResult A

infixl 5 ◌>>=◌ ◌>>◌
abbrev pub ◌>>=◌ {ℓ κ} :
    {A : Type ℓ} {B : Type κ} → NitroCliResult A → (A → NitroCliResult B) → NitroCliResult B
ok a >>= f = f a
err e >>= f = err e
exit e >>= f = exit e

abbrev pub ◌>>◌ {ℓ} : {B : Type ℓ} → NitroCliResult (Unit {0}) → NitroCliResult B → NitroCliResult B
m >> k = m >>= λ _. k

-- `ok_or_exit_with_errno`: an error ends the process.
abbrev pub ok_or_exit_with_errno {ℓ} : {A : Type ℓ} → NitroCliResult A → NitroCliResult A
ok_or_exit_with_errno (ok a) = ok a
ok_or_exit_with_errno (err e) = exit e
ok_or_exit_with_errno (exit e) = exit e
