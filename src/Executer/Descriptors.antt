-- ===== src/Executer/Descriptors.antt =====
-- The server closes no connection.
use aws_nitro_enclaves_cli.Common.{
  ℕ, zero, suc, ◌+◌, ◌≡◌, refl, ◌∙◌, Bool, true, false, Option, none, some, List, [], ◌∷◌, arith,
  ltb, ◌-◌, min, if◌then◌else◌, drop,
}
use aws_nitro_enclaves_cli.Executer.{
  Problem, not_utf8, Outcome, done, failed, panicked, blocked, Io, pure, raise, or_raise, continue,
  ◌>>=◌, ◌>>◌,
}
use aws_nitro_enclaves_cli.Executer.Utf8.{is_utf8}
use aws_nitro_enclaves_cli.Executer.Socket.{Socket, recv_u64}
use aws_nitro_enclaves_cli.Executer.Process.{
  System, Output, buf_max_len, Process, on_socket, create_file, open_file, file_size, append_file,
  read_file, from_utf8, recv_text, send_text, send_piece, send_contents, receive_piece,
  receive_contents,
}
use aws_nitro_enclaves_cli.Executer.Server.{
  CmdId, from_u64, new_from, execute, run_server, recv_file_server, send_file_server, serve,
  dispatch, served, serve_connection, Accepted, connection, no_connection, accept_loop,
}

-- A call that leaves the count of the descriptors as it is, however it ends.
KeepsSockets : {A : Type 0} → Io Process A → Type 0
KeepsSockets call = (p : Process) → (call p).1.open_sockets ≡ p.open_sockets

module _ {A B : Type 0} where
  continue-KeepsSockets :
      (r : Outcome A × Process) (k : A → Io Process B)
      → ((a : A) → KeepsSockets (k a))
      → (continue r k).1.open_sockets ≡ r.1.open_sockets
  unfolding KeepsSockets
  continue-KeepsSockets (done a, p) k h = h a p
  continue-KeepsSockets (failed e, p) k h = refl
  continue-KeepsSockets (panicked, p) k h = refl
  continue-KeepsSockets (blocked, p) k h = refl

  bind-KeepsSockets :
      (m : Io Process A) (k : A → Io Process B)
      → KeepsSockets m
      → ((a : A) → KeepsSockets (k a))
      → KeepsSockets (m >>= k)
  unfolding KeepsSockets
  bind-KeepsSockets m k hm hk p = continue-KeepsSockets (m p) k hk ∙ hm p

on_socket-KeepsSockets : {A : Type 0} (call : Io Socket A) → KeepsSockets (on_socket call)
unfolding KeepsSockets
on_socket-KeepsSockets call p = refl

module _ {A B : Type 0} where
  then-KeepsSockets :
      (m : Io Process A) (k : Io Process B)
      → KeepsSockets m
      → KeepsSockets k
      → KeepsSockets (m >> k)
  unfolding KeepsSockets
  then-KeepsSockets m k hm hk p = continue-KeepsSockets (m p) (λ a. k) (λ a. hk) ∙ hm p

if-KeepsSockets :
    {A : Type 0} (b : Bool) (x y : Io Process A)
    → KeepsSockets x
    → KeepsSockets y
    → KeepsSockets (if b then x else y)
if-KeepsSockets true x y hx hy = hx
if-KeepsSockets false x y hx hy = hy

pure-KeepsSockets : {A : Type 0} (a : A) → KeepsSockets (pure a)
unfolding KeepsSockets
pure-KeepsSockets a p = refl

raise-KeepsSockets : (A : Type 0) (e : Problem) → KeepsSockets {A = A} (raise e)
unfolding KeepsSockets
raise-KeepsSockets A e p = refl

or_raise-KeepsSockets : {A : Type 0} (e : Problem) (o : Option A) → KeepsSockets (or_raise e o)
unfolding KeepsSockets
or_raise-KeepsSockets e none p = refl
or_raise-KeepsSockets e (some a) p = refl

from_utf8-KeepsSockets : (bytes : List ℕ) → KeepsSockets (from_utf8 bytes)
from_utf8-KeepsSockets bytes =
    if-KeepsSockets (is_utf8 bytes) (pure bytes) (raise not_utf8) (pure-KeepsSockets bytes)
      (raise-KeepsSockets _ not_utf8)

append_file-KeepsSockets : (path bytes : List ℕ) → KeepsSockets (append_file path bytes)
unfolding append_file KeepsSockets
append_file-KeepsSockets path bytes p = ground arith

read_file-KeepsSockets :
    (remaining : List ℕ) (size : ℕ) (buf : List ℕ) → KeepsSockets (read_file remaining size buf)
unfolding read_file KeepsSockets
read_file-KeepsSockets remaining size buf p = ground arith

new_from-KeepsSockets : (output : Output) → KeepsSockets (new_from output)
unfolding new_from KeepsSockets
new_from-KeepsSockets output p = ground arith

ruleset steps = (
  bind-KeepsSockets, then-KeepsSockets, on_socket-KeepsSockets, pure-KeepsSockets,
  raise-KeepsSockets, or_raise-KeepsSockets, from_utf8-KeepsSockets, append_file-KeepsSockets,
  read_file-KeepsSockets, new_from-KeepsSockets,
)

recv_text-KeepsSockets : KeepsSockets recv_text
unfolding recv_text
recv_text-KeepsSockets = search steps

send_text-KeepsSockets : (bytes : List ℕ) → KeepsSockets (send_text bytes)
unfolding send_text
send_text-KeepsSockets bytes = search steps

send_piece-KeepsSockets :
    (size : ℕ) (remaining buf : List ℕ) → KeepsSockets (send_piece size remaining buf)
unfolding send_piece
send_piece-KeepsSockets size remaining buf = search steps

receive_piece-KeepsSockets :
    (size : ℕ) (path buf : List ℕ) → KeepsSockets (receive_piece size path buf)
unfolding receive_piece
receive_piece-KeepsSockets size path buf = search steps

send_contents-KeepsSockets :
    (fuel filesize progress : ℕ) (remaining buf : List ℕ)
    → KeepsSockets (send_contents fuel filesize progress remaining buf)
unfolding send_contents
send_contents-KeepsSockets zero filesize progress remaining buf = pure-KeepsSockets tt
send_contents-KeepsSockets (suc fuel) filesize progress remaining buf =
    let size = min buf_max_len (filesize - progress) in
    if-KeepsSockets (ltb progress filesize) _ (pure tt)
      (bind-KeepsSockets (send_piece size remaining buf) _
        (send_piece-KeepsSockets size remaining buf)
        (send_contents-KeepsSockets fuel filesize (progress + size) (drop size remaining)))
      (pure-KeepsSockets tt)

receive_contents-KeepsSockets :
    (fuel filesize progress : ℕ) (path buf : List ℕ)
    → KeepsSockets (receive_contents fuel filesize progress path buf)
unfolding receive_contents
receive_contents-KeepsSockets zero filesize progress path buf = pure-KeepsSockets tt
receive_contents-KeepsSockets (suc fuel) filesize progress path buf =
    let size = min buf_max_len (filesize - progress) in
    if-KeepsSockets (ltb progress filesize) _ (pure tt)
      (bind-KeepsSockets (receive_piece size path buf) _ (receive_piece-KeepsSockets size path buf)
        (receive_contents-KeepsSockets fuel filesize (progress + size) path))
      (pure-KeepsSockets tt)

module _ (sys : System) where
  create_file-KeepsSockets : (path : List ℕ) → KeepsSockets (create_file sys path)
  unfolding create_file KeepsSockets
  create_file-KeepsSockets path p = ground arith

  open_file-KeepsSockets : (path : List ℕ) → KeepsSockets (open_file sys path)
  unfolding open_file KeepsSockets
  open_file-KeepsSockets path p = ground arith

  file_size-KeepsSockets : (path contents : List ℕ) → KeepsSockets (file_size sys path contents)
  unfolding file_size KeepsSockets
  file_size-KeepsSockets path contents p = ground arith

  execute-KeepsSockets :
      (no_wait : Bool) (command : List ℕ) → KeepsSockets (execute sys no_wait command)
  unfolding execute
  execute-KeepsSockets true command =
      if-KeepsSockets (sys.spawn command) _ _ (pure-KeepsSockets _) (pure-KeepsSockets _)
  execute-KeepsSockets false command = search steps

  ruleset calls = (
    steps, recv_text-KeepsSockets, send_text-KeepsSockets, send_contents-KeepsSockets,
    receive_contents-KeepsSockets, create_file-KeepsSockets, open_file-KeepsSockets,
    file_size-KeepsSockets, execute-KeepsSockets,
  )

  serve-KeepsSockets : (id : CmdId) → KeepsSockets (serve sys id)
  unfolding serve run_server recv_file_server send_file_server
  serve-KeepsSockets CmdId.run_cmd = search calls
  serve-KeepsSockets CmdId.recv_file = search calls
  serve-KeepsSockets CmdId.send_file = search calls
  serve-KeepsSockets CmdId.run_cmd_no_wait = search calls

  dispatch-KeepsSockets : (id : Option CmdId) → KeepsSockets (dispatch sys id)
  dispatch-KeepsSockets none = pure-KeepsSockets tt
  dispatch-KeepsSockets (some id) = serve-KeepsSockets id

  serve_connection-KeepsSockets : KeepsSockets (serve_connection sys)
  unfolding serve_connection
  serve_connection-KeepsSockets =
      bind-KeepsSockets (on_socket recv_u64) _ (on_socket-KeepsSockets recv_u64)
        (λ id. dispatch-KeepsSockets (from_u64 id))

-- The connections that are accepted before the first error of `accept`.
abbrev pub accepted_connections : List Accepted → ℕ
accepted_connections [] = 0
accepted_connections (connection socket ∷ accepted) = suc (accepted_connections accepted)
accepted_connections (no_connection e ∷ accepted) = 0

served-failed :
    (r : Outcome (Unit {0}) × Process) (next : Io Process (Unit {0})) (e : Problem)
    → (served r next).0 ≡ failed e
    → served r next ≡ next r.1
served-failed (done _, p) next e h = refl
served-failed (failed _, p) next e h = refl
served-failed (panicked, p) next e h = absurd (ground arith)
served-failed (blocked, p) next e h = absurd (ground arith)

-- When the loop of the server ends with an error, every connection that it accepted before is still open.
pub accept_loop-open_sockets :
    (sys : System) (accepted : List Accepted) (p : Process) (e : Problem)
    → (accept_loop sys accepted p).0 ≡ failed e
    → (accept_loop sys accepted p).1.open_sockets ≡ p.open_sockets + accepted_connections accepted
unfolding accept_loop
accept_loop-open_sockets sys [] p e h = absurd (ground arith)
accept_loop-open_sockets sys (no_connection e' ∷ accepted) p e h = omega arith
accept_loop-open_sockets sys (connection socket ∷ accepted) p e h =
    let opened = record p { socket = socket; open_sockets = suc p.open_sockets } in
    let r = serve_connection sys opened in
    let next = accept_loop sys accepted in
    let goes_on = served-failed r next e h in
    let kept : r.1.open_sockets ≡ suc p.open_sockets =
      unfold KeepsSockets in serve_connection-KeepsSockets sys opened in
    let rest = accept_loop-open_sockets sys accepted r.1 e (rw goes_on at h) in
    rw goes_on (omega (arith, rest, kept))
