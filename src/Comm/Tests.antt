-- ===== src/Comm/Tests.antt =====
-- A process that sends texts and statuses, and a broadcast to two processes of which one is silent.
use aws_nitro_enclaves_cli.Common.{
  ℕ, ◌^◌, ◌<◌, ◌==◌, if◌then◌else◌, ◌++◌, ◌≡◌, refl, ◌≢◌, ◌↔◌, true, false, Option, none, some,
  List, [], ◌∷◌, arith, length,
}
use aws_nitro_enclaves_cli.Common.Int.{pos, negsuc}
use aws_nitro_enclaves_cli.Failure.{ok}
use aws_nitro_enclaves_cli.Wire.RoundTrip.{IsFaithful}
use aws_nitro_enclaves_cli.Wire.{
  Codec, read_exact, read_u64_le, from_le_bytes, to_le_bytes, write_all, write_u64_le, write_frame,
}
use aws_nitro_enclaves_cli.Connection.Stream.{
  EnclaveProcessReply, std_out_message, std_err_message, status, Stream, write_reply,
}
use aws_nitro_enclaves_cli.Connection.Tests.{status_codec, one_byte_frame, stream_of, connection_of}
use aws_nitro_enclaves_cli.Comm.{Json}
use aws_nitro_enclaves_cli.Comm.Output.{
  enclave_proc_output, enclave_process_handle_all_replies, print_all,
}
use aws_nitro_enclaves_cli.Comm.Delivery.{enclave_proc_output-write_replies}
use aws_nitro_enclaves_cli.Comm.Replies.{Yields, handle_all_replies_iff}
use aws_nitro_enclaves_cli.Comm.Broadcast.{
  DirEntry, connected, interrupted, timed_out, ready, waiting, await_replies,
}
use aws_nitro_enclaves_cli.Comm.Waits.{await_replies-ne-waiting}

abbrev fresh : Stream
fresh = stream_of [] none

-- The other end, after the process has sent the status 0.
abbrev answered : Stream
answered = stream_of (one_byte_frame 0) none

-- Texts of one letter and small statuses.
abbrev letter_bytes : EnclaveProcessReply → Option (List ℕ)
letter_bytes (std_out_message (c ∷ [])) = some (0 ∷ c ∷ [])
letter_bytes (std_err_message (c ∷ [])) = some (1 ∷ c ∷ [])
letter_bytes (status (pos code)) = some (2 ∷ code ∷ [])
letter_bytes _ = none

abbrev letter_of : ℕ → ℕ → Option EnclaveProcessReply
letter_of kind c =
    if kind == 0
    then some (std_out_message (c ∷ []))
    else if kind == 1
    then some (std_err_message (c ∷ []))
    else some (status (pos c))

abbrev bytes_letter : List ℕ → Option EnclaveProcessReply
bytes_letter (kind ∷ c ∷ []) = letter_of kind c
bytes_letter _ = none

abbrev letter_codec : Codec EnclaveProcessReply
letter_codec = record { to_vec = letter_bytes; from_slice = bytes_letter }

letter_bytes-bytes_letter :
    (reply : EnclaveProcessReply) (bytes : List ℕ)
    → letter_bytes reply ≡ some bytes
    → (length bytes < 2 ^ 64) × (bytes_letter bytes ≡ some reply)
letter_bytes-bytes_letter (std_out_message []) bytes e = absurd (ground arith)
letter_bytes-bytes_letter (std_out_message (c ∷ [])) bytes e = ground arith
letter_bytes-bytes_letter (std_out_message (c ∷ d ∷ ds)) bytes e = absurd (ground arith)
letter_bytes-bytes_letter (std_err_message []) bytes e = absurd (ground arith)
letter_bytes-bytes_letter (std_err_message (c ∷ [])) bytes e = ground arith
letter_bytes-bytes_letter (std_err_message (c ∷ d ∷ ds)) bytes e = absurd (ground arith)
letter_bytes-bytes_letter (status (pos code)) bytes e = ground arith
letter_bytes-bytes_letter (status (negsuc code)) bytes e = absurd (ground arith)

letter_codec-IsFaithful : IsFaithful letter_codec
letter_codec-IsFaithful = record {
  small = λ reply bytes e. (letter_bytes-bytes_letter reply bytes e).0;
  decodes = λ reply bytes e. (letter_bytes-bytes_letter reply bytes e).1;
}

-- "h", a warning "w", "i" and the statuses 4 and 0.
abbrev replies_sent : List EnclaveProcessReply
replies_sent =
    std_out_message (b'h' ∷ [])
    ∷ std_err_message (b'w' ∷ [])
    ∷ status (pos 4)
    ∷ std_out_message (b'i' ∷ [])
    ∷ status (pos 0)
    ∷ []

-- The other end of the connection.
abbrev told : Stream
told =
    stream_of
      ((2 ∷ 0 ∷ 0 ∷ 0 ∷ 0 ∷ 0 ∷ 0 ∷ 0 ∷ 0 ∷ b'h' ∷ [])
        ++ (2 ∷ 0 ∷ 0 ∷ 0 ∷ 0 ∷ 0 ∷ 0 ∷ 0 ∷ 1 ∷ b'w' ∷ [])
        ++ (2 ∷ 0 ∷ 0 ∷ 0 ∷ 0 ∷ 0 ∷ 0 ∷ 0 ∷ 2 ∷ 4 ∷ [])
        ++ (2 ∷ 0 ∷ 0 ∷ 0 ∷ 0 ∷ 0 ∷ 0 ∷ 0 ∷ 0 ∷ b'i' ∷ [])
        ++ (2 ∷ 0 ∷ 0 ∷ 0 ∷ 0 ∷ 0 ∷ 0 ∷ 0 ∷ 2 ∷ 0 ∷ []))
      none

enclave_proc_output-write_replies_example :
    ((enclave_proc_output letter_codec told).stdout_str ≡ b'h' ∷ b'i' ∷ [])
    × ((enclave_proc_output letter_codec told).stderr_str ≡ b'w' ∷ [])
    × ((enclave_proc_output letter_codec told).status ≡ some (pos 0))
unfolding write_reply write_frame write_u64_le write_all to_le_bytes
enclave_proc_output-write_replies_example =
    enclave_proc_output-write_replies letter_codec letter_codec-IsFaithful replies_sent
      (connection_of fresh) fresh told refl refl refl refl

-- The objects are numbers, and no text stands for 7.
abbrev sevens : Json ℕ
sevens = record {
  from_str = λ text. some 7;
  print_vec = λ objects. some [];
  print_object = λ object. some [];
}

abbrev no_failures : ℕ
no_failures = 0

handle_all_replies_iff_example :
    (enclave_process_handle_all_replies status_codec sevens
        (answered ∷ [])
        no_failures
        false
        (pos 0 ∷ [])
      ≡ ok (7 ∷ []))
    ↔ ((no_failures ≡ 0)
        × Yields status_codec sevens (pos 0 ∷ []) (answered ∷ []) (7 ∷ [])
        × (print_all status_codec sevens false (7 ∷ []) ≡ ok tt))
handle_all_replies_iff_example =
    handle_all_replies_iff status_codec sevens (answered ∷ []) no_failures false (pos 0 ∷ [])
      (7 ∷ [])

await_replies-ne-waiting_example :
    await_replies (fresh ∷ answered ∷ []) 2 (interrupted ∷ timed_out ∷ ready 1 false true ∷ []) []
    ≢ waiting
await_replies-ne-waiting_example =
    await_replies-ne-waiting (fresh ∷ answered ∷ []) 2
      (interrupted ∷ timed_out ∷ ready 1 false true ∷ []) []
      (tt, (tt, ((λ conn at. ground arith), tt))) (omega arith)

-- The first byte of a reply.
abbrev halting : Stream
halting = stream_of (0xc0 ∷ []) none

held_up :
    await_replies (halting ∷ answered ∷ []) 2 (ready 1 false true ∷ ready 0 false true ∷ []) []
    ≡ waiting
unfolding await_replies read_u64_le read_exact from_le_bytes
held_up = refl

-- "a.sock"
abbrev socket_name : List ℕ
socket_name = b'a' ∷ b'.' ∷ b's' ∷ b'o' ∷ b'c' ∷ b'k' ∷ []

abbrev entry_of : Stream → DirEntry
entry_of s = record {
  readable = true;
  is_dir = false;
  path = some socket_name;
  answer = connected s;
}

-- The confirmation 0xeec0 on eight bytes.
abbrev confirming : Stream
confirming = stream_of (0xc0 ∷ 0xee ∷ 0 ∷ 0 ∷ 0 ∷ 0 ∷ 0 ∷ 0 ∷ []) none

abbrev entries : List DirEntry
entries = entry_of confirming ∷ entry_of fresh ∷ []
