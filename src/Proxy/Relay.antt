-- ===== src/Proxy/Relay.antt =====
-- vsock_proxy/src/proxy.rs: `transfer`, and the loop of `Proxy::sock_accept` between two peers. The
-- writing end of a socket is that of the messages.
use aws_nitro_enclaves_cli.Common.{
  ℕ, ◌≤◌, ◌<◌, ◌≡◌, refl, sym, ap, ◌∙◌, inl, inr, Bool, true, false, Option, none, some, List, [],
  ◌∷◌, ◌++◌, arith, ◌==◌, leb, if◌then◌else◌, length, take, drop, Bool-cases, length-take,
  take-append-drop, leb→le,
}
use mathlib.Core.List.{append_assoc}
use aws_nitro_enclaves_cli.Failure.{NitroCliResult, ok}
use aws_nitro_enclaves_cli.Wire.{Sink, write_all}

abbrev pub buff_size : ℕ
buff_size = 8192

-- What a peer still sends: for each arrival its bytes, or an error of the socket. With no more
-- arrivals the peer has closed its end.
abbrev pub Source : Type 0
Source = List (Option (List ℕ))

-- One `read` into the buffer, with `unwrap_or(0)`: what does not fit is there for the next call.
unfoldable pub read : Source → List ℕ × Source
read [] = ([], [])
read (none ∷ src) = ([], src)
read (some bytes ∷ src) =
    if leb (length bytes) buff_size
    then (bytes, src)
    else (take buff_size bytes, some (drop buff_size bytes) ∷ src)

abbrev is_err {ℓ} : {A : Type ℓ} → NitroCliResult A → Bool
is_err (ok _) = false
is_err _ = true

-- Whether the peers are disconnected, and both ends after the transfer.
unfoldable pub transfer : Source → Sink → Bool × Source × Sink
transfer src dst =
    let (buffer, src') = read src in
    let (result, dst') = write_all buffer dst in
    if length buffer == 0 then (true, src', dst) else (is_err result, src', dst')

-- A connection between two peers in the loop of `sock_accept`.
pub record Relay : Type 0 where
  pub client_in : Source
  pub client_out : Sink
  pub server_in : Source
  pub server_out : Sink
  pub disconnected : Bool

abbrev from_client : Relay → Relay
from_client r =
    let (over, src, dst) = transfer r.client_in r.server_out in
    record r { client_in = src; server_out = dst; disconnected = over }

abbrev from_server : Relay → Relay
from_server r =
    let (over, src, dst) = transfer r.server_in r.client_out in
    record r { server_in = src; client_out = dst; disconnected = over }

-- One round of the loop, for the sockets that `select` finds ready.
unfoldable pub relay_round : Bool → Bool → Relay → Relay
relay_round client_ready server_ready r =
    let r' = if client_ready then from_client r else r in
    if server_ready then from_server r' else r'

-- The loop, for the answers of `select`.
unfoldable pub relay : List (Bool × Bool) → Relay → Relay
unfolding relay_round
relay [] r = r
relay ((client_ready, server_ready) ∷ readies) r =
    let rest = relay readies (relay_round client_ready server_ready r) in
    if r.disconnected then r else rest

-- All the bytes that a peer sends, before an error.
unfoldable pub bytes_of : Source → List ℕ
bytes_of [] = []
bytes_of (none ∷ src) = []
bytes_of (some bytes ∷ src) = bytes ++ bytes_of src

read-bytes_of :
    (src : Source)
    → 0 < length (read src).0
    → (bytes_of src ≡ (read src).0 ++ bytes_of (read src).1) × (length (read src).0 ≤ buff_size)
unfolding read bytes_of
read-bytes_of [] h = absurd (omega arith)
read-bytes_of (none ∷ src) h = absurd (omega arith)
read-bytes_of (some bytes ∷ src) h = elim (Bool-cases (leb (length bytes) buff_size)) [
  | inl fits ↦ rw fits (refl, leb→le (length bytes) buff_size fits)
  | inr more ↦ rw more (
    sym (ap (λ bs. bs ++ bytes_of src) (take-append-drop buff_size bytes))
        ∙ append_assoc (take buff_size bytes) (drop buff_size bytes) (bytes_of src),
    omega (arith, length-take buff_size bytes),
  )
]

-- A transfer after which the peers are still connected has written between 1 and 8192 bytes: the
-- next ones that the source sends, in order, and no byte of the source is lost.
pub transfer-connected :
    (src : Source) (dst : Sink)
    → (transfer src dst).0 ≡ false
    → (chunk : List ℕ) × ((transfer src dst).2.written ≡ dst.written ++ chunk)
      × (bytes_of src ≡ chunk ++ bytes_of (transfer src dst).1)
      × (0 < length chunk)
      × (length chunk ≤ buff_size)
unfolding transfer write_all
transfer-connected src dst h =
    let some_bytes : 0 < length (read src).0 = ground arith in
    let moved : (transfer src dst).1 ≡ (read src).1 = ground arith in
    let (order, bound) = read-bytes_of src some_bytes in
    ((read src).0, ground arith, rw moved order, some_bytes, bound)

-- When both peers are ready, what the server's transfer says goes over what the client's said: the
-- loop goes on after the client has closed its end or the server cannot be written to.
relay_round_overwrites :
    (r : Relay)
    → (transfer r.client_in r.server_out).0 ≡ true
    → (transfer r.server_in r.client_out).0 ≡ false
    → (relay_round true true r).disconnected ≡ false
unfolding relay_round
relay_round_overwrites r closed live = ground arith
