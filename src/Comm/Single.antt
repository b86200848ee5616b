-- ===== src/Comm/Single.antt =====
-- src/enclave_proc_comm.rs: a question to one enclave process, for the CID or the flags.
use aws_nitro_enclaves_cli.Common.{ℕ, true, false, Option, none, some}
use aws_nitro_enclaves_cli.Failure.{NitroCliResult, ok, err, exit, socket_error}
use aws_nitro_enclaves_cli.Exec.{Exec, pure, lift, gets, ◌>>=◌, ◌>>◌}
use aws_nitro_enclaves_cli.Command.{EnclaveProcessCommandType, get_enclave_cid, get_enclave_flags}
use aws_nitro_enclaves_cli.Wire.{Codec, enclave_proc_command_send_single, read_u64_le}
use aws_nitro_enclaves_cli.Connection.Stream.{Stream, on_incoming, on_sink}

-- What `UnixStream::connect` gives for the socket of the enclave.
unfoldable pub enclave_proc_connect_to_single : Option Stream → NitroCliResult Stream
enclave_proc_connect_to_single none = err socket_error
enclave_proc_connect_to_single (some comm) = ok comm

abbrev shut : Stream → NitroCliResult (Unit {0})
shut s = elim s.closes [ true ↦ ok tt | false ↦ err socket_error ]

module _ (commands : Codec EnclaveProcessCommandType) where
  abbrev ask : EnclaveProcessCommandType → Exec Stream ℕ
  ask cmd = do
    on_sink (enclave_proc_command_send_single commands commands cmd none)
    answer ← on_incoming read_u64_le
    closed ← gets shut
    lift closed
    pure answer

  abbrev ask_of : EnclaveProcessCommandType → NitroCliResult Stream → NitroCliResult ℕ
  ask_of cmd (ok comm) = (ask cmd comm).0
  ask_of cmd (err e) = err e
  ask_of cmd (exit e) = exit e

  unfoldable pub enclave_proc_get_cid : Option Stream → NitroCliResult ℕ
  unfolding enclave_proc_connect_to_single
  enclave_proc_get_cid comm = ask_of get_enclave_cid (enclave_proc_connect_to_single comm)

  unfoldable pub enclave_proc_get_flags : Option Stream → NitroCliResult ℕ
  unfolding enclave_proc_connect_to_single
  enclave_proc_get_flags comm = ask_of get_enclave_flags (enclave_proc_connect_to_single comm)
