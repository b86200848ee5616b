-- ===== src/Cli.antt =====
-- src/lib.rs: what the command line program does for all enclaves.
pub mod Names
pub mod Unique
pub mod Console
pub mod Main
pub mod Attached
pub mod Launched
mod Tests
mod Scenes
use aws_nitro_enclaves_cli.Common.{
  ℕ, ◌+◌, ◌≡◌, refl, Bool, true, false, not, Option, none, some, List, [], ◌∷◌, map, length,
  if◌then◌else◌, arith, ◌↔◌, ap,
}
use aws_nitro_enclaves_cli.Common.Int.{ℤ, pos}
use aws_nitro_enclaves_cli.Failure.{
  NitroCliErrorEnum, NitroCliResult, ok, err, exit, ◌>>=◌, enclave_naming_error,
  file_operation_failure,
}
use aws_nitro_enclaves_cli.Command.{EnclaveProcessCommandType, terminate}
use aws_nitro_enclaves_cli.Wire.{Codec, enclave_proc_command_send_single}
use aws_nitro_enclaves_cli.Connection.Stream.{EnclaveProcessReply, Stream}
use aws_nitro_enclaves_cli.Comm.{Json}
use aws_nitro_enclaves_cli.Comm.Output.{
  enclave_proc_handle_outputs, enclave_process_handle_all_replies,
}

-- The match on the number of answers.
abbrev pub only_one : List (List ℕ) → NitroCliResult (List ℕ)
only_one (id ∷ []) = ok id
only_one _ = err enclave_naming_error

module _ (replies : Codec EnclaveProcessReply) (texts : Json (List ℕ)) where
  abbrev pub objects_of : List Stream → List (List ℕ)
  objects_of conns = map (λ v. v.0) (enclave_proc_handle_outputs replies texts conns)

  -- The end of `get_all_enclave_names`, for the connections that have confirmed the command.
  unfoldable pub get_all_enclave_names : List Stream → List (List ℕ)
  get_all_enclave_names comms = objects_of comms

  -- The end of `get_id_by_name`, for the same.
  unfoldable pub get_id_by_name : List Stream → NitroCliResult (List ℕ)
  get_id_by_name comms = only_one (objects_of comms)

-- An entry of the directory of the sockets: its path, if it can be read, and the socket that was
-- connected to.
pub record SocketEntry : Type 0 where
  pub readable : Bool
  pub path : List ℕ
  pub connects : Option Stream

-- The variables of the loop.
pub record Sent : Type 0 where
  pub replies : List Stream
  pub err_socket_files : ℕ
  pub failed_connections : List (List ℕ)

module _ {A : Type 0} (commands : Codec EnclaveProcessCommandType) (arguments : Codec A) where
  abbrev keep_reply : List ℕ → Stream → NitroCliResult (Unit {0}) → Sent → Sent
  keep_reply path stream (ok _) s = record s { replies = stream ∷ s.replies }
  keep_reply path stream (err e) s = record s { failed_connections = path ∷ s.failed_connections }
  keep_reply path stream (exit e) s = record s { failed_connections = path ∷ s.failed_connections }

  abbrev send_to : List ℕ → Option Stream → Sent → Sent
  send_to path none s = record s { failed_connections = path ∷ s.failed_connections }
  send_to path (some stream) s =
      keep_reply path stream
        (enclave_proc_command_send_single commands arguments terminate none stream.sink).0 s

  -- The body of the loop, in front of the entries that follow.
  abbrev send_entry : SocketEntry → Sent → Sent
  send_entry entry s =
      if entry.readable
      then send_to entry.path entry.connects s
      else record s { err_socket_files = s.err_socket_files + 1 }

  unfoldable pub send_terminate : List SocketEntry → Sent
  send_terminate [] = record { replies = []; err_socket_files = 0; failed_connections = [] }
  send_terminate (entry ∷ entries) = send_entry entry (send_terminate entries)

  -- `none` is a directory that cannot be read. The failed connections are deleted as stale.
  unfoldable pub terminate_all_enclaves :
      {T : Type 0}
      → Codec EnclaveProcessReply
      → Json T
      → Option (List SocketEntry)
      → NitroCliResult (Unit {0}) × List (List ℕ)
  unfolding send_terminate
  terminate_all_enclaves replies json none = (err file_operation_failure, [])
  terminate_all_enclaves replies json (some entries) =
      let s = send_terminate entries in
      (
        enclave_process_handle_all_replies replies json s.replies
              (length s.failed_connections + s.err_socket_files) false (pos 0 ∷ pos 13 ∷ [])
            >>= (λ objects. ok tt),
        s.failed_connections,
      )

  -- Each entry of the directory of the sockets is accounted for once: as a process that the command to
  -- terminate was sent to, as a socket that is deleted, or as an entry that cannot be read.
  send_terminate-counts :
      (entries : List SocketEntry)
      → length (send_terminate entries).replies
          + length (send_terminate entries).failed_connections
          + (send_terminate entries).err_socket_files
        ≡ length entries
  unfolding send_terminate
  send_terminate-counts [] = refl
  send_terminate-counts (entry ∷ entries) = ground (arith, send_terminate-counts entries)

module _ (replies : Codec EnclaveProcessReply) (texts : Json (List ℕ)) where
  -- An ID is found by name exactly if the enclave processes that have answered have given this one ID
  -- in all.
  get_id_by_name_iff :
      (comms : List Stream) (id : List ℕ)
      → (get_id_by_name replies texts comms ≡ ok id) ↔ (objects_of replies texts comms ≡ id ∷ [])
  unfolding get_id_by_name
  get_id_by_name_iff comms id = go (objects_of replies texts comms)
    where
      go : (ids : List (List ℕ)) → (only_one ids ≡ ok id) ↔ (ids ≡ id ∷ [])
      go [] = ground arith
      go (a ∷ []) = ground arith
      go (a ∷ b ∷ ids) = ground arith
