-- ===== src/Comm/Delivery.antt =====
-- What an enclave process replies is what the command line program gets.
use aws_nitro_enclaves_cli.Common.{
  ℕ, zero, suc, ◌≤◌, ◌<◌, ◌≡◌, inl, inr, refl, sym, ap, ◌∙◌, Option, none, some, List, [], ◌∷◌,
  ◌++◌, arith, Bool-cases, if◌then◌else◌, length, length-append,
}
use mathlib.Core.List.{append-nil, append_assoc}
use aws_nitro_enclaves_cli.Failure.{NitroCliResult, ok, err, exit, socket_error}
use aws_nitro_enclaves_cli.Exec.{Exec, pure, continue-ok, ◌>>◌}
use aws_nitro_enclaves_cli.Wire.{Codec, receive_from_stream, to_le_bytes, read_u64_le, read_exact}
use aws_nitro_enclaves_cli.Wire.RoundTrip.{
  IsFaithful, frame, receive_from_stream-frame, length-to_le_bytes,
}
use aws_nitro_enclaves_cli.Common.Int.{ℤ, negsuc}
use aws_nitro_enclaves_cli.Connection.Stream.{
  Connection, EnclaveProcessReply, std_out_message, std_err_message, Stream, write_reply,
}
use aws_nitro_enclaves_cli.Connection.Replies.{write_reply-ok}
use aws_nitro_enclaves_cli.Comm.Output.{
  Output, take_reply, received, read_replies, no_output, enclave_proc_output,
}

-- The text of the replies for the standard output, and that for the standard error, in their order.
abbrev pub stdout_text : List EnclaveProcessReply → List ℕ
stdout_text [] = []
stdout_text (std_out_message msg ∷ replies) = msg ++ stdout_text replies
stdout_text (std_err_message msg ∷ replies) = stdout_text replies
stdout_text (EnclaveProcessReply.status code ∷ replies) = stdout_text replies

abbrev pub stderr_text : List EnclaveProcessReply → List ℕ
stderr_text [] = []
stderr_text (std_out_message msg ∷ replies) = stderr_text replies
stderr_text (std_err_message msg ∷ replies) = msg ++ stderr_text replies
stderr_text (EnclaveProcessReply.status code ∷ replies) = stderr_text replies

-- The last status of the replies, or the one given where they have none.
abbrev pub last_status : Option ℤ → List EnclaveProcessReply → Option ℤ
last_status known [] = known
last_status known (std_out_message msg ∷ replies) = last_status known replies
last_status known (std_err_message msg ∷ replies) = last_status known replies
last_status known (EnclaveProcessReply.status code ∷ replies) = last_status (some code) replies

-- The output with what the replies add to it.
abbrev with_replies : List EnclaveProcessReply → Output → Output
with_replies replies o = record {
  stdout_str = o.stdout_str ++ stdout_text replies;
  stderr_str = o.stderr_str ++ stderr_text replies;
  status = last_status o.status replies;
}

with_replies-nil : (o : Output) → o ≡ with_replies [] o
with_replies-nil o = ground (arith, append-nil o.stdout_str, append-nil o.stderr_str)

with_replies-take_reply :
    (reply : EnclaveProcessReply) (replies : List EnclaveProcessReply) (o : Output)
    → with_replies replies (take_reply reply o) ≡ with_replies (reply ∷ replies) o
with_replies-take_reply (std_out_message msg) replies o =
    rw (append_assoc o.stdout_str msg (stdout_text replies)) refl
with_replies-take_reply (std_err_message msg) replies o =
    rw (append_assoc o.stderr_str msg (stderr_text replies)) refl
with_replies-take_reply (EnclaveProcessReply.status code) replies o = refl

-- What went out on a connection.
abbrev pub sent_by : Option Stream → List ℕ
sent_by none = []
sent_by (some s) = s.sink.written

module _ (codec : Codec EnclaveProcessReply) (faithful : IsFaithful codec) where
  -- The bytes of replies, each as a frame.
  abbrev Frames : List EnclaveProcessReply → List ℕ → Type 0
  Frames [] sent = sent ≡ []
  Frames (reply ∷ replies) sent =
      (bytes : List ℕ) × (rest : List ℕ) × (codec.to_vec reply ≡ some bytes)
      × (sent ≡ frame bytes ++ rest)
      × Frames replies rest

  -- Replies that are written one after the other.
  abbrev pub write_replies : List EnclaveProcessReply → Exec Connection (Unit {0})
  write_replies [] = pure tt
  write_replies (reply ∷ replies) = do write_reply codec reply; write_replies replies

  write_replies-Frames :
      (replies : List EnclaveProcessReply) (c : Connection) (s : Stream)
      → c.input_stream ≡ some s
      → (write_replies replies c).0 ≡ ok tt
      → (s' : Stream) × (sent : List ℕ) × ((write_replies replies c).1.input_stream ≡ some s')
        × (s'.sink.written ≡ s.sink.written ++ sent)
        × Frames replies sent
  write_replies-Frames [] c s there h = (s, [], there, sym (append-nil s.sink.written), refl)
  write_replies-Frames (reply ∷ replies) c s there h =
      let (_, first, p) = continue-ok (write_reply codec reply c) _ h in
      let (bytes, e, after, written) = write_reply-ok codec reply c s there first in
      let (s', sent, left, more, frames) =
        write_replies-Frames replies (write_reply codec reply c).1 _ after
          (sym (ap (λ x. x.0) p) ∙ h) in
      (
        s',
        frame bytes ++ sent,
        ap (λ x. x.1.input_stream) p ∙ left,
        more ∙ rw written (append_assoc s.sink.written (frame bytes) sent),
        (bytes, sent, e, refl, frames),
      )

  receive_from_stream-nil : (receive_from_stream codec []).0 ≡ err socket_error
  unfolding receive_from_stream read_u64_le read_exact
  receive_from_stream-nil = refl

  received-nil :
      (rest : List ℕ → Output → Output) (r : NitroCliResult EnclaveProcessReply × List ℕ)
      (o : Output)
      → r.0 ≡ err socket_error
      → received codec rest r o ≡ o
  received-nil rest (ok _, _) o h = cc
  received-nil rest (err _, _) o h = refl
  received-nil rest (exit _, _) o h = cc

  read_replies-Frames :
      (fuel : ℕ) (replies : List EnclaveProcessReply) (sent : List ℕ) (o : Output)
      → Frames replies sent
      → length replies < fuel
      → read_replies codec fuel sent o ≡ with_replies replies o
  unfolding read_replies
  read_replies-Frames zero replies sent o frames h = absurd (omega arith)
  read_replies-Frames (suc fuel) [] sent o frames h = rw frames (
      received-nil (read_replies codec fuel) (receive_from_stream codec []) o
        receive_from_stream-nil
      ∙ with_replies-nil o)
  read_replies-Frames (suc fuel) (reply ∷ replies) sent o (bytes, rest, e, split, frames) h =
      rw
        (
          split,
          receive_from_stream-frame codec bytes rest reply (faithful.small reply bytes e)
              (faithful.decodes reply bytes e),
        )
        (read_replies-Frames fuel replies rest (take_reply reply o) frames (omega arith)
          ∙ with_replies-take_reply reply replies o)

  length-Frames :
      (replies : List EnclaveProcessReply) (sent : List ℕ)
      → Frames replies sent
      → length replies ≤ length sent
  length-Frames [] sent frames = omega arith
  length-Frames (reply ∷ replies) sent (bytes, rest, e, split, frames) = rw split (
      omega (
        arith,
        length-append (frame bytes) rest,
        length-append (to_le_bytes 8 (length bytes)) bytes,
        length-to_le_bytes 8 (length bytes),
        length-Frames replies rest frames,
      ))

  -- The replies that a process writes on a fresh connection without an error, and with which the
  -- connection ends, reach the command line program: it has the texts for the standard output and those
  -- for the standard error, each put together in the order of the replies, and the last status that was
  -- sent, if there is one. Where the socket cannot be shut down, the status is -1 in its place. The encoding
  -- gives back each reply, from less than 2^64 bytes.
  pub enclave_proc_output-write_replies :
      (replies : List EnclaveProcessReply) (c : Connection) (s : Stream) (conn : Stream)
      → c.input_stream ≡ some s
      → s.sink.written ≡ []
      → (write_replies replies c).0 ≡ ok tt
      → sent_by (write_replies replies c).1.input_stream ≡ conn.incoming
      → ((enclave_proc_output codec conn).stdout_str ≡ stdout_text replies)
        × ((enclave_proc_output codec conn).stderr_str ≡ stderr_text replies)
        × ((enclave_proc_output codec conn).status
            ≡ (if conn.closes then last_status none replies else some (negsuc 0)))
  unfolding enclave_proc_output
  enclave_proc_output-write_replies replies c s conn there fresh h passed =
      let (s', sent, left, written, frames) = write_replies-Frames replies c s there h in
      let same : sent ≡ conn.incoming =
        sym (rw fresh at written) ∙ sym (ap sent_by left) ∙ passed in
      let framed : Frames replies conn.incoming = rw same at frames in
      let all : read_replies codec (suc (length conn.incoming)) conn.incoming (no_output codec)
          ≡ with_replies replies (no_output codec) =
        read_replies-Frames (suc (length conn.incoming)) replies conn.incoming (no_output codec)
          framed (omega (arith, length-Frames replies conn.incoming framed)) in
      elim (Bool-cases conn.closes) [
        | inl shut ↦ rw (shut, all) (refl, refl, refl)
        | inr stays ↦ rw (stays, all) (refl, refl, refl)
      ]
