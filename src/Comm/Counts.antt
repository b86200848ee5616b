-- ===== src/Comm/Counts.antt =====
-- The replies and the errors that a broadcast to all enclave processes counts.
use aws_nitro_enclaves_cli.Common.{ℕ, ◌≡◌, some, List, get_elem?}
use aws_nitro_enclaves_cli.Failure.{ok}
use aws_nitro_enclaves_cli.Wire.{read_u64_le}
use aws_nitro_enclaves_cli.Connection.Stream.{Stream}
use aws_nitro_enclaves_cli.Comm.Broadcast.{msg_enclave_confirm}

-- A connection of the list that has sent the confirmation, and was read up to there.
abbrev pub IsConfirmed : List Stream → Stream → Type 0
IsConfirmed conns reply =
    (place : ℕ) × (conn : Stream) × (get_elem? conns place ≡ some conn)
    × (read_u64_le conn.incoming ≡ (ok msg_enclave_confirm, reply.incoming))
