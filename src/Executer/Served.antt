-- ===== src/Executer/Served.antt =====
-- The commands that copy a file, on the side of the server.
use aws_nitro_enclaves_cli.Common.{
  ℕ, ◌+◌, ◌≤◌, ◌<◌, ◌≡◌, refl, sym, ◌∙◌, true, some, List, [], ◌++◌, arith, length, drop, ◌^◌,
  length-append, length-drop,
}
use mathlib.Core.List.{append_assoc, append-nil}
use aws_nitro_enclaves_cli.Executer.{done}
use aws_nitro_enclaves_cli.Executer.Socket.{Answer}
use aws_nitro_enclaves_cli.Executer.Buffer.{Serves}
use aws_nitro_enclaves_cli.Executer.FileSent.{sent}
use aws_nitro_enclaves_cli.Executer.Utf8.{is_utf8}
use aws_nitro_enclaves_cli.Executer.Process.{new_buffer, Process, lookup, insert, buf_max_len}
use aws_nitro_enclaves_cli.Executer.Messages.{
  u64_bytes, message, reading, length-new_buffer, send_u64-Serves, recv_u64-Serves,
  recv_text-Serves,
}
use aws_nitro_enclaves_cli.Executer.FileSent.{send_contents-Serves}
use aws_nitro_enclaves_cli.Executer.Process.{System, create_file, open_file, file_size}
use aws_nitro_enclaves_cli.Executer.Server.{
  CmdId, cmd_id, from_u64, recv_file_server, send_file_server, serve, serve_connection,
}
use aws_nitro_enclaves_cli.Executer.Stored.{stored, receive_file, receive_file-Serves}

-- The request of a client.
abbrev pub request : CmdId → List ℕ → List ℕ
request id text = u64_bytes (cmd_id id) ++ message text

from_u64-cmd_id : (id : CmdId) → from_u64 (cmd_id id) ≡ some id
unfolding from_u64
from_u64-cmd_id CmdId.run_cmd = refl
from_u64-cmd_id CmdId.recv_file = refl
from_u64-cmd_id CmdId.send_file = refl
from_u64-cmd_id CmdId.run_cmd_no_wait = refl

pub cmd_id_small : (id : CmdId) → cmd_id id < 2 ^ 64
cmd_id_small CmdId.run_cmd = omega arith
cmd_id_small CmdId.recv_file = omega arith
cmd_id_small CmdId.send_file = omega arith
cmd_id_small CmdId.run_cmd_no_wait = omega arith

module _ (sys : System) where
  pub open_file-lookup :
      (path contents : List ℕ) (p : Process)
      → lookup path p.files ≡ some contents
      → open_file sys path p ≡ (done contents, p)
  unfolding open_file
  open_file-lookup path contents p found = rw (found, open_file) refl

  pub file_size-has_metadata :
      (path contents : List ℕ) (p : Process)
      → sys.has_metadata path ≡ true
      → file_size sys path contents p ≡ (done (length contents), p)
  unfolding file_size
  file_size-has_metadata path contents p stat = rw (stat, file_size) refl

  recv_file_server-Serves :
      (count : ℕ) (path contents rest : List ℕ) (s : Process)
      → length path ≤ buf_max_len
      → is_utf8 path ≡ true
      → s.socket.incoming ≡ message path ++ rest
      → lookup path s.files ≡ some contents
      → sys.has_metadata path ≡ true
      → Serves (count + length contents + 9 + length path + 9) s.socket.answers
      → (left : List Answer) × Serves count left
        × (recv_file_server sys s ≡ (done tt, sent (message contents) left (reading rest left s)))
  unfolding recv_file_server
  recv_file_server-Serves count path contents rest s fits valid arrives found stat h =
      let n = length contents in
      let (left, serves, e) = recv_text-Serves (count + n + 9) path rest s fits valid arrives h in
      let (left1, serves1, e1) = send_u64-Serves (count + n) n (reading rest left s) serves in
      let (left2, serves2, e2) =
        send_contents-Serves count n 0 n contents (path ++ drop (length path) new_buffer)
          (sent (u64_bytes n) left1 (reading rest left s)) (omega arith)
          (omega (
            arith,
            length-append path (drop (length path) new_buffer),
            length-drop (length path) new_buffer,
            length-new_buffer,
          ))
          refl serves1 in
      let z : 0 + n ≡ n = omega arith in
      (
        left2,
        serves2,
        rw
            (
              e,
              open_file-lookup path contents (reading rest left s) found,
              file_size-has_metadata path contents (reading rest left s) stat,
              e1,
            )
            (rw (z, append_assoc) at e2),
      )

  pub create_file-may_create :
      (path : List ℕ) (p : Process)
      → sys.may_create path ≡ true
      → create_file sys path p ≡ (done tt, record p { files = insert path [] p.files })
  unfolding create_file
  create_file-may_create path p allowed = rw (allowed, create_file) refl

module _ (sys : System) where
  send_file_server-Serves :
      (count : ℕ) (path contents rest : List ℕ) (s : Process)
      → length path ≤ buf_max_len
      → is_utf8 path ≡ true
      → sys.may_create path ≡ true
      → length contents < 2 ^ 64
      → length contents ≤ s.room
      → s.socket.incoming ≡ message path ++ (message contents ++ rest)
      → Serves (count + length contents + 9 + length path + 9) s.socket.answers
      → (left : List Answer) × Serves count left
        × (send_file_server sys s ≡ (done tt, stored path contents rest left s))
  unfolding send_file_server receive_file
  send_file_server-Serves count path contents rest s fits valid allowed small room arrives h =
      let n = length contents in
      let (left, serves, e) =
        recv_text-Serves (count + n + 9) path (message contents ++ rest) s fits valid arrives h in
      let (left1, serves1, e1) =
        receive_file-Serves count path contents rest (path ++ drop (length path) new_buffer)
          (reading (message contents ++ rest) left s) small
          (omega (
            arith,
            length-append path (drop (length path) new_buffer),
            length-drop (length path) new_buffer,
            length-new_buffer,
          ))
          room refl serves in
      (
        left1,
        serves1,
        rw (e, create_file-may_create sys path (reading (message contents ++ rest) left s) allowed)
            e1,
      )

  -- Where the client asks with `request id path`, the server reads the command and serves it.
  pub serve_connection-request :
      (count : ℕ) (id : CmdId) (body : List ℕ) (s : Process)
      → s.socket.incoming ≡ u64_bytes (cmd_id id) ++ body
      → Serves (count + 9) s.socket.answers
      → (left : List Answer) × Serves count left
        × (serve_connection sys s ≡ serve sys id (reading body left s))
  unfolding serve_connection
  serve_connection-request count id body s arrives h =
      let (left, serves, e) =
        recv_u64-Serves count (cmd_id id) body s (cmd_id_small id) arrives h in
      (left, serves, rw (e, from_u64-cmd_id id) refl)

  pub serve_recv_file-Serves :
      (count : ℕ) (path contents : List ℕ) (s : Process)
      → length path ≤ buf_max_len
      → is_utf8 path ≡ true
      → s.socket.incoming ≡ request CmdId.recv_file path
      → lookup path s.files ≡ some contents
      → sys.has_metadata path ≡ true
      → Serves (count + length contents + 9 + length path + 9 + 9) s.socket.answers
      → (left : List Answer) × Serves count left
        × (serve_connection sys s ≡ (done tt, sent (message contents) left (reading [] left s)))
  unfolding serve
  serve_recv_file-Serves count path contents s fits valid arrives found stat h =
      let n = length contents in
      let (left, serves, e) =
        serve_connection-request (count + n + 9 + length path + 9) CmdId.recv_file (message path) s
          arrives h in
      let (left1, serves1, e1) =
        recv_file_server-Serves sys count path contents [] (reading (message path) left s) fits
          valid (sym (append-nil (message path))) found stat serves in
      (left1, serves1, e ∙ e1)

  pub serve_send_file-Serves :
      (count : ℕ) (path contents : List ℕ) (s : Process)
      → length path ≤ buf_max_len
      → is_utf8 path ≡ true
      → sys.may_create path ≡ true
      → length contents < 2 ^ 64
      → length contents ≤ s.room
      → s.socket.incoming ≡ request CmdId.send_file path ++ message contents
      → Serves (count + length contents + 9 + length path + 9 + 9) s.socket.answers
      → (left : List Answer) × Serves count left
        × (serve_connection sys s ≡ (done tt, stored path contents [] left s))
  unfolding serve
  serve_send_file-Serves count path contents s fits valid allowed small room arrives h =
      let n = length contents in
      let body = message path ++ (message contents ++ []) in
      let (left, serves, e) =
        serve_connection-request (count + n + 9 + length path + 9) CmdId.send_file body s
          (arrives ∙ rw (append-nil, append_assoc) refl) h in
      let (left1, serves1, e1) =
        send_file_server-Serves count path contents [] (reading body left s) fits valid allowed
          small room refl serves in
      (left1, serves1, e ∙ e1)
