-- ===== src/Listener.antt =====
-- src/enclave_proc/connection_listener.rs and src/enclave_proc/socket.rs: the listener for new
-- connections and the file of its socket. The thread of the listener is run where it is joined.
pub mod Sockets
mod Tests
use aws_nitro_enclaves_cli.Common.{
  ℕ, Bool, true, false, ◌&&◌, Option, none, some, List, [], ◌∷◌, ◌==◌, if◌then◌else◌,
}
use aws_nitro_enclaves_cli.Common.Int.{ℤ, pos_part, neg_part}
use aws_nitro_enclaves_cli.Failure.{
  NitroCliErrorEnum, NitroCliResult, ok, err, exit, ok_or_exit_with_errno, epoll_error,
  socket_error, socket_close_error, file_operation_failure,
}
use aws_nitro_enclaves_cli.Exec.{Exec, pure, raise, lift, gets, modify, ◌>>=◌, ◌>>◌}
use aws_nitro_enclaves_cli.Command.{
  EnclaveProcessCommandType, connection_listener_stop, same_command,
}
use aws_nitro_enclaves_cli.Wire.{or_raise, receive_from_stream, enclave_proc_command_send_single}
use aws_nitro_enclaves_cli.EnclaveId.{split_enc}
use aws_nitro_enclaves_cli.Connection.Stream.{Connection, EpollFlags, Stream, new_connection}
use aws_nitro_enclaves_cli.Host.{Host}

-- The socket of an enclave process. That its file may be deleted is noted for its monitor.
pub record EnclaveProcSock : Type 0 where
  pub socket_path : List ℕ
  pub requested_remove : Bool

-- `running` says whether there is a thread of the listener.
pub record ConnectionListener : Type 0 where
  pub running : Bool
  pub socket : EnclaveProcSock

-- `ConnectionListener::new` but for the descriptor of `epoll`.
abbrev pub no_listener : ConnectionListener
no_listener = record {
  running = false;
  socket = record { socket_path = []; requested_remove = false };
}

-- `tokens[0]` of `rsplit("-enc")`: the last piece.
unfoldable pub last_token : List (List ℕ) → List ℕ
last_token [] = []
last_token (token ∷ []) = token
last_token (token ∷ tokens) = last_token tokens

-- An answer of `epoll_wait`; `event` is the descriptor with its events, and the socket behind it.
pub data Wait : Type 0 where
  interrupted failed : Wait
  event : ℤ → EpollFlags → Stream → Wait

abbrev same_fd : ℤ → ℤ → Bool
same_fd a b = pos_part a == pos_part b && neg_part a == neg_part b

-- The enclave's descriptor has no stream.
abbrev pub input_of : Option ℤ → ℤ → Stream → Option Stream
input_of none fd s = some s
input_of (some enc_fd) fd s = if same_fd enc_fd fd then none else some s

abbrev pub shut_down : Stream → NitroCliResult (Unit {0})
shut_down s = if s.closes then ok tt else err socket_close_error

module _ (H : Host) where
  -- A listener and the system around it.
  pub record Listening : Type 0 where
    pub listener : ConnectionListener
    pub sys : H.State

  abbrev pub answered : NitroCliErrorEnum → (H.State → Bool × H.State) → Exec Listening (Unit {0})
  answered e f w = let (done, k) = f w.sys in (if done then ok tt else err e, record w { sys = k })

  unfoldable pub get_socket_path : List ℕ → List ℕ
  unfolding last_token
  get_socket_path enclave_id = H.socket_file (last_token (split_enc 0 enclave_id))

  abbrev pub delete_file : List ℕ → Bool → Exec Listening (Unit {0})
  delete_file path there =
      if there then answered file_operation_failure (H.remove_file path) else pure tt

  -- `EnclaveProcSock::close_mut`, which is also its `drop`. The thread that monitors the file ends
  -- by itself, since the removal is noted before.
  unfoldable pub close_mut : Exec Listening (Unit {0})
  close_mut = do
    modify (λ w. record w {
      listener = record w.listener {
        socket = record w.listener.socket { requested_remove = true };
      };
    })
    path ← gets (λ w. w.listener.socket.socket_path)
    there ← gets (λ w. H.exists path w.sys)
    delete_file path there

  -- An error ends the process.
  abbrev pub or_exit : {A : Type 0} → Exec Listening A → Exec Listening A
  or_exit body w = let (result, w') = body w in (ok_or_exit_with_errno result, w')

  -- The old socket is dropped.
  unfoldable pub start : List ℕ → Exec Listening (Unit {0})
  start enclave_id = do
    let path = get_socket_path enclave_id
    or_exit close_mut
    modify (λ w. record w {
      listener = record w.listener {
        socket = record { socket_path = path; requested_remove = false };
      };
    })
    answered socket_error (H.bind path)
    (λ w. let (result, k) = H.start_monitoring path w.sys in (result, record w { sys = k }))
    modify (λ w. record w { listener = record w.listener { running = true } })

  -- `add_stream_to_epoll` and `register_enclave_descriptor`
  unfoldable pub add_to_epoll : Exec Listening (Unit {0})
  add_to_epoll = answered epoll_error H.epoll_add

  abbrev register : EnclaveProcessCommandType → Exec Listening (Unit {0})
  register cmd = if same_command cmd connection_listener_stop then pure tt else add_to_epoll

  -- The first copy of the command is taken off the stream.
  unfoldable pub handle_new_connection : List ℕ → Exec Listening EnclaveProcessCommandType
  unfolding add_to_epoll
  handle_new_connection incoming = do
    cmd_type ← lift (receive_from_stream H.commands incoming).0
    register cmd_type
    pure cmd_type

  -- The stop of a thread that runs: the end of the thread closes the socket.
  unfoldable pub stop_thread : Exec Listening (Unit {0})
  unfolding close_mut
  stop_thread = do
    path ← gets (λ w. w.listener.socket.socket_path)
    connected ← gets (λ w. H.connect path w.sys)
    self_conn ← or_raise socket_error connected
    lift
        (enclave_proc_command_send_single H.commands H.commands connection_listener_stop none
          self_conn.sink).0
    lift (shut_down self_conn)
    or_exit close_mut
    modify (λ w. record w { listener = record w.listener { running = false } })

  unfoldable pub stop : Exec Listening (Unit {0})
  unfolding stop_thread
  stop w = if w.listener.running then stop_thread w else (ok tt, w)

  -- `none` means that the answers are used up.
  unfoldable pub get_next_connection : Option ℤ → List Wait → Exec H.State (Option Connection)
  get_next_connection enc_fd [] k = (ok none, k)
  get_next_connection enc_fd (interrupted ∷ answers) k = get_next_connection enc_fd answers k
  get_next_connection enc_fd (failed ∷ answers) k = (err epoll_error, k)
  get_next_connection enc_fd (event fd flags s ∷ answers) k =
      let (removed, k') = H.epoll_del fd k in
      (
        if removed
            then ok (some (new_connection flags (input_of enc_fd fd s)))
            else err epoll_error,
        k',
      )
