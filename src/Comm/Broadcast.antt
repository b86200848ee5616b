-- ===== src/Comm/Broadcast.antt =====
-- src/enclave_proc_comm.rs: `enclave_proc_connect_to_all` and `enclave_proc_command_send_all`.
use aws_nitro_enclaves_cli.Common.{
  ℕ, zero, suc, ◌-◌, Bool, false, not, ◌&&◌, ltb, Option, none, some, List, [], ◌∷◌, ◌++◌, ◌==◌,
  if◌then◌else◌, length, get_elem?,
}
use aws_nitro_enclaves_cli.Failure.{
  NitroCliErrorEnum, NitroCliResult, ok, err, exit, ◌>>◌, read_from_disk_failure, epoll_error,
}
use aws_nitro_enclaves_cli.Text.{ends_with}
use aws_nitro_enclaves_cli.Wire.{Codec, enclave_proc_command_send_single, read_u64_le}
use aws_nitro_enclaves_cli.Connection.Stream.{Stream}

abbrev pub msg_enclave_confirm : ℕ
msg_enclave_confirm = 0xeec0

-- What `UnixStream::connect` answers.
pub data ConnectAnswer : Type 0 where
  connected : Stream → ConnectAnswer
  permission_denied other_failure : ConnectAnswer

-- An entry of the directory of the sockets: its path, if it is Unicode.
pub record DirEntry : Type 0 where
  pub readable : Bool
  pub is_dir : Bool
  pub path : Option (List ℕ)
  pub answer : ConnectAnswer

-- The connections that were opened, and the sockets that were deleted as stale.
pub record Connected : Type 0 where
  pub conns : List Stream
  pub deleted : List (List ℕ)

-- ".sock"
abbrev sock_suffix : List ℕ
sock_suffix = b'.' ∷ b's' ∷ b'o' ∷ b'c' ∷ b'k' ∷ []

abbrev connect_answer : List ℕ → ConnectAnswer → Connected → Connected
connect_answer path (connected conn) c = record c { conns = conn ∷ c.conns }
connect_answer path permission_denied c = c
connect_answer path other_failure c = record c { deleted = path ∷ c.deleted }

abbrev connect_path : Option (List ℕ) → ConnectAnswer → Connected → Connected
connect_path none answer c = c
connect_path (some path) answer c =
    if ends_with sock_suffix path then connect_answer path answer c else c

-- The two filters and the connect, in front of the entries that follow.
abbrev connect_entry : DirEntry → Connected → Connected
connect_entry entry c =
    if not entry.readable
    then c
    else if entry.is_dir
    then c
    else connect_path entry.path entry.answer c

unfoldable pub connect_entries : List DirEntry → Connected
unfolding ends_with
connect_entries [] = record { conns = []; deleted = [] }
connect_entries (entry ∷ entries) = connect_entry entry (connect_entries entries)

-- `none` is a directory that cannot be read.
unfoldable pub enclave_proc_connect_to_all : Option (List DirEntry) → NitroCliResult Connected
enclave_proc_connect_to_all none = err read_from_disk_failure
enclave_proc_connect_to_all (some entries) = ok (connect_entries entries)

-- What `epoll_wait` answers: an interruption, another error, a time-out, or the place of a connection
-- that can be read, with whether its process closes it behind what it has sent, and whether it can be taken
-- off the set.
pub data EpollAnswer : Type 0 where
  interrupted failed timed_out : EpollAnswer
  ready : ℕ → Bool → Bool → EpollAnswer

-- How far the wait has come: to its end, to an error, or to a call that does not return: of `epoll_wait`
-- behind the last answer, or of `read_exact` on a connection.
pub data Waited : Type 0 where
  finished : List Stream → Waited
  broken : NitroCliErrorEnum → Waited
  waiting : Waited

-- `read_u64_le` on the connection, which counts only with the right confirmation.
abbrev pub confirmed : Stream → NitroCliResult ℕ × List ℕ → List Stream → List Stream
confirmed conn (ok reply, rest) replies =
    if reply == msg_enclave_confirm
    then replies ++ record conn { incoming = rest } ∷ []
    else replies
confirmed conn (err e, rest) replies = replies
confirmed conn (exit e, rest) replies = replies

abbrev pub handle_reply : Option Stream → List Stream → List Stream
handle_reply none replies = replies
handle_reply (some conn) replies = confirmed conn (read_u64_le conn.incoming) replies

-- `read_exact` does not return: fewer than the eight bytes are sent, and the connection stays open.
abbrev pub blocks : Option Stream → Bool → Bool
blocks none closes = false
blocks (some conn) closes = not closes && ltb (length conn.incoming) 8

-- The loop, for `expected` replies that are still to come.
unfoldable pub await_replies : List Stream → ℕ → List EpollAnswer → List Stream → Waited
await_replies conns zero answers replies = finished replies
await_replies conns (suc expected) [] replies = waiting
await_replies conns (suc expected) (interrupted ∷ answers) replies =
    await_replies conns (suc expected) answers replies
await_replies conns (suc expected) (failed ∷ answers) replies = broken epoll_error
await_replies conns (suc expected) (timed_out ∷ answers) replies =
    await_replies conns expected answers replies
await_replies conns (suc expected) (ready place closes removed ∷ answers) replies =
    let rest =
      await_replies conns expected answers (handle_reply (get_elem? conns place) replies) in
    if blocks (get_elem? conns place) closes
    then waiting
    else if removed
    then rest
    else broken epoll_error

module _ {C A : Type 0} (commands : Codec C) (arguments : Codec A) (cmd : C) (args : Option A) where
  -- The command is sent, and the connection added to the set of `epoll`, if the system does so.
  abbrev pub send_one : Stream → Bool → NitroCliResult (Unit {0})
  send_one conn registers = do
    (enclave_proc_command_send_single commands arguments cmd args conn.sink).0
    (if registers then ok tt else err epoll_error)

  abbrev pub keep_sent : NitroCliResult (Unit {0}) → Stream → List Stream → List Stream
  keep_sent (ok _) conn sent = conn ∷ sent
  keep_sent (err e) conn sent = sent
  keep_sent (exit e) conn sent = sent

  -- The connections to which the command went out.
  unfoldable pub sent_to : List Stream → (ℕ → Bool) → List Stream
  sent_to [] registers = []
  sent_to (conn ∷ conns) registers =
      keep_sent (send_one conn (registers 0)) conn (sent_to conns (λ n. registers (suc n)))

  abbrev pub counted : ℕ → Waited → Option (NitroCliResult (List Stream × ℕ))
  counted comms (finished replies) = some (ok (replies, comms - length replies))
  counted comms (broken e) = some (err e)
  counted comms waiting = none

  -- `none` as long as the program waits. `creates` says whether `epoll_create` succeeds.
  abbrev pub send_to_conns :
      List Stream → (ℕ → Bool) → List EpollAnswer → Option (NitroCliResult (List Stream × ℕ))
  send_to_conns [] registers answers = some (ok ([], 0))
  send_to_conns (conn ∷ conns) registers answers =
      let sent = sent_to (conn ∷ conns) registers in
      counted (length (conn ∷ conns)) (await_replies sent (length sent) answers [])

  abbrev after_connect :
      NitroCliResult Connected
      → (ℕ → Bool)
      → List EpollAnswer
      → Option (NitroCliResult (List Stream × ℕ))
  after_connect (ok c) registers answers = send_to_conns c.conns registers answers
  after_connect (err e) registers answers = some (err e)
  after_connect (exit e) registers answers = some (exit e)

  unfoldable pub enclave_proc_command_send_all :
      Bool
      → Option (List DirEntry)
      → (ℕ → Bool)
      → List EpollAnswer
      → Option (NitroCliResult (List Stream × ℕ))
  unfolding sent_to await_replies
  enclave_proc_command_send_all creates entries registers answers =
      if creates
      then after_connect (enclave_proc_connect_to_all entries) registers answers
      else some (err epoll_error)
