-- ===== src/EventLoop/Tests.antt =====
-- An enclave process that gets requests.
use aws_nitro_enclaves_cli.Common.{
  ℕ, ◌≡◌, refl, inl, inr, true, false, none, some, List, [], ◌∷◌, arith,
}
use aws_nitro_enclaves_cli.Common.Int.{pos}
use aws_nitro_enclaves_cli.Failure.{NitroCliResult, socket_error}
use aws_nitro_enclaves_cli.Command.{terminate}
use aws_nitro_enclaves_cli.Wire.{receive_from_stream, read_u64_le, read_exact, from_le_bytes}
use aws_nitro_enclaves_cli.Connection.{UnixCredentials}
use aws_nitro_enclaves_cli.Connection.Stream.{EpollFlags}
use aws_nitro_enclaves_cli.Connection.Tests.{
  owner, stranger, one_byte_frame, stream_of, ready_flags,
}
use aws_nitro_enclaves_cli.Enclave.Manager.{get_enclave_descriptor}
use aws_nitro_enclaves_cli.Listener.{Wait, event}
use aws_nitro_enclaves_cli.EventLoop.{Process, set_system}
use aws_nitro_enclaves_cli.EventLoop.Loop.{
  again, returned, main, terminate_thread, event_loop, round,
}
use aws_nitro_enclaves_cli.EventLoop.Identity.{identity, event_loop-identity}
use aws_nitro_enclaves_cli.EventLoop.Requests.{round-IsStranger, round-unread}
use aws_nitro_enclaves_cli.Host.Machine.{Machine, host, manager, listener}

abbrev process : Process host
process = record {
  enclave_manager = manager;
  conn_listener = listener;
  terminate_thread = none;
  detached = [];
  describe_thread = none;
}

-- A request on descriptor 9.
abbrev request_of : List ℕ → UnixCredentials → Wait
request_of incoming creds = event (pos 9) ready_flags (stream_of incoming (some creds))

event_loop-identity_example :
    identity host
      (event_loop host
        (main (request_of (one_byte_frame 1) owner ∷ []) ∷ terminate_thread ∷ [])
        process).1
    ≡ identity host process
event_loop-identity_example =
    event_loop-identity host
      (main (request_of (one_byte_frame 1) owner ∷ []) ∷ terminate_thread ∷ []) process refl

abbrev hup_flags : EpollFlags
hup_flags = record { readable = false; hup = true; other = false }

round-IsStranger_example :
    ((round host (request_of (one_byte_frame 1) stranger ∷ []) process).0 ≡ again)
    × ((k : Machine) × ((round host (request_of (one_byte_frame 1) stranger ∷ []) process).1
          ≡ set_system host k process))
unfolding round get_enclave_descriptor receive_from_stream read_u64_le read_exact from_le_bytes
round-IsStranger_example =
    round-IsStranger host (λ c k. refl) process (pos 9) ready_flags
      (stream_of (one_byte_frame 1) (some stranger)) [] terminate refl refl refl (inr (inl refl))
      ((λ h. ground arith), (λ h. ground arith)) refl

round-unread_example :
    (result : NitroCliResult (Unit {0})) × ((round host (request_of [] stranger ∷ []) process).0
      ≡ returned result)
unfolding round get_enclave_descriptor receive_from_stream read_u64_le read_exact
round-unread_example =
    round-unread host (λ c k. refl) process (pos 9) ready_flags (stream_of [] (some stranger)) []
      socket_error refl refl refl
