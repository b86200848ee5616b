-- ===== src/Connection/Tests.antt =====
-- The access policy of a process of user 1000, and a connection to it.
use aws_nitro_enclaves_cli.Common.{
  ℕ, ◌^◌, ◌<◌, ◌≡◌, ◌≢◌, ◌↔◌, ◌⊎◌, true, false, Option, none, some, List, [], ◌∷◌, arith, length,
  get_elem?,
}
use aws_nitro_enclaves_cli.Common.Int.{pos, negsuc}
use aws_nitro_enclaves_cli.Command.{
  EnclaveProcessCommandType, run, terminate, connection_listener_stop, not_permitted,
}
use aws_nitro_enclaves_cli.Wire.{Codec}
use aws_nitro_enclaves_cli.Wire.RoundTrip.{IsFaithful}
use aws_nitro_enclaves_cli.Connection.Stream.{
  Connection, EpollFlags, Stream, EnclaveProcessReply, std_out_message, std_err_message, status,
}
use aws_nitro_enclaves_cli.Connection.{UnixCredentials, new_with_defaults, can_execute_command}
use aws_nitro_enclaves_cli.Connection.Policy.{IsReadOnly, can_execute_command_iff}

abbrev pub owner : UnixCredentials
owner = record { uid = 1000; gid = 100 }

abbrev pub stranger : UnixCredentials
stranger = record { uid = 1001; gid = 100 }

can_execute_command_iff_example :
    (can_execute_command (new_with_defaults 1000) terminate stranger ≡ true) ↔ (
      IsReadOnly terminate
      ⊎ (terminate ≢ not_permitted) × ((stranger.uid ≡ 0) ⊎ (stranger.uid ≡ 1000)))
can_execute_command_iff_example = can_execute_command_iff 1000 terminate stranger

-- Of the replies only a status of one byte, and each command as its place in the list.
abbrev status_byte : EnclaveProcessReply → Option (List ℕ)
status_byte (status (pos code)) = some (code ∷ [])
status_byte _ = none

abbrev byte_status : List ℕ → Option EnclaveProcessReply
byte_status (code ∷ []) = some (status (pos code))
byte_status _ = none

abbrev pub status_codec : Codec EnclaveProcessReply
status_codec = record { to_vec = status_byte; from_slice = byte_status }

pub status_codec-IsFaithful : IsFaithful status_codec
status_codec-IsFaithful = record { small = small; decodes = decodes }
  where
    small :
        (reply : EnclaveProcessReply) (bytes : List ℕ)
        → status_byte reply ≡ some bytes
        → length bytes < 2 ^ 64
    small (status (pos code)) bytes e = ground arith
    small (status (negsuc code)) bytes e = absurd (ground arith)
    small (std_out_message msg) bytes e = absurd (ground arith)
    small (std_err_message msg) bytes e = absurd (ground arith)

    decodes :
        (reply : EnclaveProcessReply) (bytes : List ℕ)
        → status_byte reply ≡ some bytes
        → byte_status bytes ≡ some reply
    decodes (status (pos code)) bytes e = ground arith
    decodes (status (negsuc code)) bytes e = absurd (ground arith)
    decodes (std_out_message msg) bytes e = absurd (ground arith)
    decodes (std_err_message msg) bytes e = absurd (ground arith)

abbrev byte_of : EnclaveProcessCommandType → ℕ
byte_of run = 0
byte_of terminate = 1
byte_of connection_listener_stop = 2
byte_of _ = 3

abbrev command_of : List ℕ → Option EnclaveProcessCommandType
command_of (b ∷ []) = get_elem? (run ∷ terminate ∷ connection_listener_stop ∷ []) b
command_of _ = none

abbrev pub command_codec : Codec EnclaveProcessCommandType
command_codec = record { to_vec = λ cmd. some (byte_of cmd ∷ []); from_slice = command_of }

-- The frame of a message of one byte.
abbrev pub one_byte_frame : ℕ → List ℕ
one_byte_frame b = 1 ∷ 0 ∷ 0 ∷ 0 ∷ 0 ∷ 0 ∷ 0 ∷ 0 ∷ b ∷ []

abbrev pub stream_of : List ℕ → Option UnixCredentials → Stream
stream_of incoming creds = record {
  incoming = incoming;
  sink = record { written = []; limit = 1000 };
  creds = creds;
  closes = true;
}

abbrev pub ready_flags : EpollFlags
ready_flags = record { readable = true; hup = false; other = false }

abbrev pub connection_of : Stream → Connection
connection_of s = record { poisoned = false; epoll_flags = ready_flags; input_stream = some s }
