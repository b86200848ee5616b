-- ===== src/Executer/Socket.antt =====
-- samples/command_executer/src/protocol_helpers.rs: the loops around `send` and `recv`. What the kernel
-- answers to each call is a list, in the order of the calls.
use aws_nitro_enclaves_cli.Common.{
  ℕ, ◌+◌, ◌-◌, min, List, [], ◌∷◌, ◌++◌, ltb, if◌then◌else◌, length, take, drop, replicate,
}
use aws_nitro_enclaves_cli.Common.{◌%◌, ◌^◌}
use aws_nitro_enclaves_cli.Common.Int.{ℤ, pos, negsuc, as_i32}
use aws_nitro_enclaves_cli.Wire.{to_le_bytes, from_le_bytes}
use aws_nitro_enclaves_cli.Executer.{
  errno, Outcome, done, failed, panicked, blocked, Io, pure, ◌>>=◌,
}

-- `transfer n` takes or gives at most `n` bytes: fewer where the caller asks for fewer, or where the
-- peer has sent no more.
pub data Answer : Type 0 where
  transfer : ℕ → Answer
  interrupted : Answer
  refused : ℕ → Answer

-- One end of a connection: what the peer sends, what it was sent, and the kernel's next answers.
pub record Socket : Type 0 where
  pub incoming : List ℕ
  pub outgoing : List ℕ
  pub answers : List Answer

-- `buf[at..at + bytes.len()]` is overwritten.
unfoldable pub store : ℕ → List ℕ → List ℕ → List ℕ
store at bytes buf = take at buf ++ (bytes ++ drop (at + length bytes) buf)

-- The test of the loop, and the bounds check of the slice `buf[progress..len]` that each round takes.
abbrev while_open {ℓ} :
    {A : Type ℓ} → ℕ → ℕ → List ℕ → Outcome A × Socket → Outcome A × Socket → Outcome A × Socket
while_open progress len buf (result, s) round =
    if ltb progress len then if ltb (length buf) len then (panicked, s) else round else (result, s)

unfoldable pub send_calls : List Answer → ℕ → ℕ → List ℕ → Io Socket (Unit {0})
send_calls [] send_bytes len buf s =
    let s' = record s { answers = [] } in while_open send_bytes len buf (done tt, s') (blocked, s')
send_calls (transfer n ∷ answers) send_bytes len buf s =
    let bytes = take (min n (len - send_bytes)) (drop send_bytes buf) in
    let rest =
      send_calls answers (send_bytes + length bytes) len buf
        (record s { outgoing = s.outgoing ++ bytes }) in
    while_open send_bytes len buf (done tt, record s { answers = transfer n ∷ answers }) rest
send_calls (interrupted ∷ answers) send_bytes len buf s =
    let rest = send_calls answers send_bytes len buf s in
    while_open send_bytes len buf (done tt, record s { answers = interrupted ∷ answers }) rest
send_calls (refused e ∷ answers) send_bytes len buf s =
    while_open send_bytes len buf (done tt, record s { answers = refused e ∷ answers })
      (failed (errno e), record s { answers = answers })

unfoldable pub recv_calls : List Answer → ℕ → ℕ → List ℕ → Io Socket (List ℕ)
recv_calls [] recv_bytes len buf s =
    let s' = record s { answers = [] } in while_open recv_bytes len buf (done buf, s') (blocked, s')
recv_calls (transfer n ∷ answers) recv_bytes len buf s =
    let size = min n (len - recv_bytes) in
    let bytes = take size s.incoming in
    let rest =
      recv_calls answers (recv_bytes + length bytes) len (store recv_bytes bytes buf)
        (record s { incoming = drop size s.incoming }) in
    while_open recv_bytes len buf (done buf, record s { answers = transfer n ∷ answers }) rest
recv_calls (interrupted ∷ answers) recv_bytes len buf s =
    let rest = recv_calls answers recv_bytes len buf s in
    while_open recv_bytes len buf (done buf, record s { answers = interrupted ∷ answers }) rest
recv_calls (refused e ∷ answers) recv_bytes len buf s =
    while_open recv_bytes len buf (done buf, record s { answers = refused e ∷ answers })
      (failed (errno e), record s { answers = answers })

unfoldable pub send_loop : List ℕ → ℕ → Io Socket (Unit {0})
send_loop buf len s = send_calls s.answers 0 len buf s

-- The buffer is returned as the call leaves it.
unfoldable pub recv_loop : List ℕ → ℕ → Io Socket (List ℕ)
recv_loop buf len s = recv_calls s.answers 0 len buf s

-- The number stands in the first eight of nine bytes.
unfoldable pub send_u64 : ℕ → Io Socket (Unit {0})
send_u64 val = send_loop (to_le_bytes 8 val ++ (0 ∷ [])) 9

unfoldable pub recv_u64 : Io Socket ℕ
recv_u64 = do buf ← recv_loop (replicate 9 0) 9; pure (from_le_bytes (take 8 buf))

-- The 32 bits of a signed number.
unfoldable pub to_u32 : ℤ → ℕ
to_u32 (pos n) = n % 2 ^ 32
to_u32 (negsuc n) = 2 ^ 32 - 1 - n % 2 ^ 32

unfoldable pub send_i32 : ℤ → Io Socket (Unit {0})
send_i32 val = send_loop (to_le_bytes 4 (to_u32 val)) 4

unfoldable pub recv_i32 : Io Socket ℤ
recv_i32 = do buf ← recv_loop (replicate 4 0) 4; pure (as_i32 (from_le_bytes buf))
