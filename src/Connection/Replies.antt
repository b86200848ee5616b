-- ===== src/Connection/Replies.antt =====
-- What a connection does with the replies of the enclave process.
use aws_nitro_enclaves_cli.Common.{
  ℕ, ◌≡◌, refl, ◌⊎◌, inl, inr, Option, none, some, List, ◌++◌, arith, Option-cases,
}
use aws_nitro_enclaves_cli.Failure.{NitroCliResult, ok, err, exit}
use aws_nitro_enclaves_cli.Command.{
  EnclaveProcessCommandType, run, terminate, terminate_complete, connection_listener_stop,
}
use aws_nitro_enclaves_cli.Wire.{Codec, write_frame, receive_from_stream}
use aws_nitro_enclaves_cli.Wire.RoundTrip.{frame, write_frame-ok}
use aws_nitro_enclaves_cli.Connection.{UnixCredentials, admitted}
use aws_nitro_enclaves_cli.Connection.Policy.{can_execute_command_iff}
use aws_nitro_enclaves_cli.Connection.Stream.{
  Connection, Stream, EnclaveProcessReply, read_command, write_reply,
}

-- The commands that change an enclave or its process.
abbrev pub Writes : EnclaveProcessCommandType → Type 0
Writes cmd =
    (cmd ≡ run) ⊎ (cmd ≡ terminate) ⊎ (cmd ≡ terminate_complete) ⊎ (cmd ≡ connection_listener_stop)

-- A command that writes is admitted only from root or the user of the process.
admitted-Writes :
    (uid : ℕ) (sent cmd : EnclaveProcessCommandType) (socket_creds : Option UnixCredentials)
    → admitted uid sent socket_creds ≡ cmd
    → Writes cmd
    → (creds : UnixCredentials) × (socket_creds ≡ some creds)
      × ((creds.uid ≡ 0) ⊎ (creds.uid ≡ uid))
unfolding admitted
admitted-Writes uid sent cmd none h w = absurd (ground arith)
admitted-Writes uid sent cmd (some creds) h w =
    (creds, refl, ground (arith, can_execute_command_iff uid sent creds))

-- A command that changes an enclave or its process is read from a connection only if the system
-- tells the credentials of the peer, and these are root's or those of the user of the process.
read_command-Writes :
    (commands : Codec EnclaveProcessCommandType) (uid : ℕ) (c : Connection) (s : Stream)
    (cmd : EnclaveProcessCommandType)
    → c.input_stream ≡ some s
    → (read_command commands uid c).0 ≡ ok cmd
    → Writes cmd
    → (creds : UnixCredentials) × (s.creds ≡ some creds) × ((creds.uid ≡ 0) ⊎ (creds.uid ≡ uid))
unfolding read_command
read_command-Writes commands uid c s cmd there h w =
    let (sent, creds_of) = go (receive_from_stream commands s.incoming).0 refl in
    admitted-Writes uid sent cmd s.creds creds_of w
  where
    go :
        (received : NitroCliResult EnclaveProcessCommandType)
        → (receive_from_stream commands s.incoming).0 ≡ received
        → (sent : EnclaveProcessCommandType) × (admitted uid sent s.creds ≡ cmd)
    go (ok sent) e = (sent, ground arith)
    go (err code) e = absurd (ground arith)
    go (exit code) e = absurd (ground arith)

-- A reply that is written without an error stands behind what was written before as one frame, from
-- which the encoding gives the reply back.
pub write_reply-ok :
    (replies : Codec EnclaveProcessReply) (reply : EnclaveProcessReply) (c : Connection)
    (s : Stream)
    → c.input_stream ≡ some s
    → (write_reply replies reply c).0 ≡ ok tt
    → (bytes : List ℕ) × (replies.to_vec reply ≡ some bytes)
      × ((write_reply replies reply c).1.input_stream
          ≡ some (record s { sink = (write_frame bytes s.sink).1 }))
      × ((write_frame bytes s.sink).1.written ≡ s.sink.written ++ frame bytes)
unfolding write_reply
write_reply-ok replies reply c s there h = elim (Option-cases (replies.to_vec reply)) [
  | inl lost ↦ absurd (ground arith)
  | inr (bytes, e) ↦ (bytes, e, ground arith, ground (arith, write_frame-ok bytes s.sink))
]
