-- ===== src/Connection/Stream.antt =====
-- src/enclave_proc/connection.rs: `Connection`, the peer of an enclave process: a CLI instance, the
-- enclave, or the process itself.
use aws_nitro_enclaves_cli.Common.{
  ℕ, Bool, false, Option, none, some, List, [], ◌∷◌, ◌++◌, if◌then◌else◌,
}
use aws_nitro_enclaves_cli.Common.Int.{ℤ}
use aws_nitro_enclaves_cli.Failure.{
  NitroCliErrorEnum, NitroCliResult, ok, err, lock_acquire_failure, unusable_connection_error,
  socket_error, serde_error,
}
use aws_nitro_enclaves_cli.Exec.{Exec, pure, gets, ◌>>=◌}
use aws_nitro_enclaves_cli.Command.{EnclaveProcessCommandType}
use aws_nitro_enclaves_cli.Connection.{UnixCredentials, admitted}
use aws_nitro_enclaves_cli.Wire.{
  Sink, Codec, or_raise, write_frame, write_u64_le, receive_from_stream,
}

-- src/common/mod.rs
pub data EnclaveProcessReply : Type 0 where
  std_out_message std_err_message : List ℕ → EnclaveProcessReply
  status : ℤ → EnclaveProcessReply

-- A set of flags of `epoll`; `other` stands for any flag but these two.
pub record EpollFlags : Type 0 where
  pub readable : Bool
  pub hup : Bool
  pub other : Bool

-- A stream socket: what is still to be read, what is written, the peer's credentials, if the system
-- can tell them, and whether the socket can be shut down.
pub record Stream : Type 0 where
  pub incoming : List ℕ
  pub sink : Sink
  pub creds : Option UnixCredentials
  pub closes : Bool

pub record Connection : Type 0 where
  pub poisoned : Bool
  pub epoll_flags : EpollFlags
  pub input_stream : Option Stream

-- `Connection::new`
unfoldable pub new_connection : EpollFlags → Option Stream → Connection
new_connection epoll_flags input_stream = record {
  poisoned = false;
  epoll_flags = epoll_flags;
  input_stream = input_stream;
}

abbrev pub on_incoming : {A : Type 0} → Exec (List ℕ) A → Exec Stream A
on_incoming body s = let (result, rest) = body s.incoming in (result, record s { incoming = rest })

abbrev pub on_sink : {A : Type 0} → Exec Sink A → Exec Stream A
on_sink body s = let (result, sink) = body s.sink in (result, record s { sink = sink })

abbrev pub use_stream :
    {A : Type 0}
    → NitroCliErrorEnum
    → Exec Stream A
    → Connection
    → Option Stream
    → NitroCliResult A × Connection
use_stream e body c none = (err e, c)
use_stream e body c (some s) =
    let (result, s') = body s in (result, record c { input_stream = some s' })

-- The lock of the data, the test for a stream with the error for its absence, and `body` on it.
abbrev pub with_stream : {A : Type 0} → NitroCliErrorEnum → Exec Stream A → Exec Connection A
with_stream e body c =
    if c.poisoned then (err lock_acquire_failure, c) else use_stream e body c c.input_stream

-- `uid` is the user of the enclave process.
unfoldable pub read_command :
    Codec EnclaveProcessCommandType → ℕ → Exec Connection EnclaveProcessCommandType
read_command commands uid = with_stream unusable_connection_error (do
  cmd ← on_incoming (receive_from_stream commands)
  socket_creds ← gets (λ s. s.creds)
  pure (admitted uid cmd socket_creds))

unfoldable pub read : {T : Type 0} → Codec T → Exec Connection T
read codec = with_stream socket_error (on_incoming (receive_from_stream codec))

unfoldable pub write_u64 : ℕ → Exec Connection (Unit {0})
write_u64 value = with_stream socket_error (on_sink (write_u64_le value))

module _ (replies : Codec EnclaveProcessReply) where
  unfoldable pub write_reply : EnclaveProcessReply → Exec Connection (Unit {0})
  write_reply reply = with_stream socket_error (do
    reply_bytes ← or_raise serde_error (replies.to_vec reply)
    on_sink (write_frame reply_bytes))

  -- The message with a new line behind it.
  unfoldable pub println : List ℕ → Exec Connection (Unit {0})
  println msg = write_reply (std_out_message (msg ++ 10 ∷ []))

  unfoldable pub eprintln : List ℕ → Exec Connection (Unit {0})
  eprintln msg = write_reply (std_err_message (msg ++ 10 ∷ []))

  unfoldable pub write_status : ℤ → Exec Connection (Unit {0})
  write_status code = write_reply (status code)

abbrev flags_of : EpollFlags → Option Stream → Option EpollFlags
flags_of flags none = some flags
flags_of flags (some s) = none

-- The flags of an enclave's connection, which has no stream.
unfoldable pub get_enclave_event_flags : Connection → NitroCliResult (Option EpollFlags)
get_enclave_event_flags c =
    if c.poisoned then err lock_acquire_failure else ok (flags_of c.epoll_flags c.input_stream)
