-- ===== src/Executer/Process.antt =====
-- samples/command_executer/src/lib.rs: what a process of the sample has beside its socket, and the steps
-- that the server and the client share. A path and a text are their bytes.
use aws_nitro_enclaves_cli.Common.{
  ℕ, zero, suc, ◌+◌, ◌-◌, min, Bool, Option, none, some, List, [], ◌∷◌, ◌++◌, ltb, leb,
  if◌then◌else◌, length, take, drop, replicate,
}
use aws_nitro_enclaves_cli.Common.Int.{ℤ}
use aws_nitro_enclaves_cli.Text.{same_text}
use aws_nitro_enclaves_cli.Wire.{Codec}
use aws_nitro_enclaves_cli.Executer.{
  not_utf8, could_not_open, could_not_get_metadata, could_not_read, could_not_write, done, failed,
  Io, pure, raise, ◌>>=◌, ◌>>◌,
}
use aws_nitro_enclaves_cli.Executer.Utf8.{is_utf8}
use aws_nitro_enclaves_cli.Executer.Socket.{Socket, store, send_loop, recv_loop, send_u64, recv_u64}

-- `Command::output`: the two texts and the code, which a process that a signal ended has not.
pub record Output : Type 0 where
  pub stdout : List ℕ
  pub stderr : List ℕ
  pub code : Option ℤ

pub record CommandOutput : Type 0 where
  pub stdout : List ℕ
  pub stderr : List ℕ
  pub rc : Option ℤ

-- The shell, the permissions of the file system, and the encoding of the output.
pub record System : Type 0 where
  pub spawn : List ℕ → Bool
  pub output : List ℕ → Option Output
  pub may_create : List ℕ → Bool
  pub has_metadata : List ℕ → Bool
  pub json : Codec CommandOutput

-- The answer to an attempt to connect.
pub data Attempt : Type 0 where
  connects : Attempt
  no_socket refuses : ℕ → Attempt

-- `room` is the number of bytes that the disk still takes; `open_sockets` counts descriptors.
pub record Process : Type 0 where
  pub socket : Socket
  pub files : List (List ℕ × List ℕ)
  pub room : ℕ
  pub attempts : List Attempt
  pub slept : ℕ
  pub open_sockets : ℕ
  pub stdout : List ℕ
  pub stderr : List ℕ

unfoldable pub lookup : List ℕ → List (List ℕ × List ℕ) → Option (List ℕ)
lookup path [] = none
lookup path ((name, contents) ∷ files) =
    if same_text path name then some contents else lookup path files

unfoldable pub insert : List ℕ → List ℕ → List (List ℕ × List ℕ) → List (List ℕ × List ℕ)
insert path contents [] = (path, contents) ∷ []
insert path contents ((name, old) ∷ files) =
    if same_text path name
    then (name, contents) ∷ files
    else (name, old) ∷ insert path contents files

abbrev pub on_socket {ℓ} : {A : Type ℓ} → Io Socket A → Io Process A
on_socket call p = let (result, socket) = call p.socket in (result, record p { socket = socket })

abbrev pub buf_max_len : ℕ
buf_max_len = 8192

unfoldable pub new_buffer : List ℕ
new_buffer = replicate buf_max_len 0

abbrev pub contents_of : Option (List ℕ) → List ℕ
contents_of none = []
contents_of (some contents) = contents

abbrev pub from_utf8 : List ℕ → Io Process (List ℕ)
from_utf8 bytes = if is_utf8 bytes then pure bytes else raise not_utf8

module _ (sys : System) where
  -- `File::create`
  unfoldable pub create_file : List ℕ → Io Process (Unit {0})
  create_file path p =
      if sys.may_create path
      then (done tt, record p { files = insert path [] p.files })
      else (failed could_not_open, p)

  -- `File::open` with `metadata().len()`
  unfoldable pub open_file : List ℕ → Io Process (List ℕ)
  open_file path p = elim (lookup path p.files) [
    | none ↦ (failed could_not_open, p)
    | some contents ↦ (done contents, p)
  ]

  unfoldable pub file_size : List ℕ → List ℕ → Io Process ℕ
  file_size path contents p =
      if sys.has_metadata path
      then (done (length contents), p)
      else (failed could_not_get_metadata, p)

-- `File::write_all` at the end of the file
unfoldable pub append_file : List ℕ → List ℕ → Io Process (Unit {0})
append_file path bytes p =
    let old = contents_of (lookup path p.files) in
    if leb (length bytes) p.room
    then (
      done tt,
      record p { files = insert path (old ++ bytes) p.files; room = p.room - length bytes },
    )
    else (
      failed could_not_write,
      record p { files = insert path (old ++ take p.room bytes) p.files; room = 0 },
    )

-- `File::read_exact` into the front of the buffer, from what is left of the file.
unfoldable pub read_file : List ℕ → ℕ → List ℕ → Io Process (List ℕ)
read_file remaining size buf p =
    if leb size (length remaining)
    then (done (store 0 (take size remaining) buf), p)
    else (failed could_not_read, p)

-- A text behind its length, as the server reads it; the slice up to the length is checked again.
unfoldable pub recv_text : Io Process (List ℕ × List ℕ)
recv_text = do
  len ← on_socket recv_u64
  buf ← on_socket (recv_loop new_buffer len)
  text ← from_utf8 (take len buf)
  pure (text, buf)

-- A text behind its length, as the client sends it.
unfoldable pub send_text : List ℕ → Io Process (Unit {0})
send_text bytes = do on_socket (send_u64 (length bytes)); on_socket (send_loop bytes (length bytes))

-- One round of the loop that sends a file.
unfoldable pub send_piece : ℕ → List ℕ → List ℕ → Io Process (List ℕ)
send_piece size remaining buf = do
  full ← read_file remaining size buf
  on_socket (send_loop full size)
  pure full

-- The loop that sends a file. Its fuel is the size of the file, of which each round takes a byte at least.
unfoldable pub send_contents : ℕ → ℕ → ℕ → List ℕ → List ℕ → Io Process (Unit {0})
send_contents zero filesize progress remaining buf = pure tt
send_contents (suc fuel) filesize progress remaining buf =
    let tmpsize = min buf_max_len (filesize - progress) in
    let rest = send_contents fuel filesize (progress + tmpsize) (drop tmpsize remaining) in
    let body = send_piece tmpsize remaining buf >>= rest in
    if ltb progress filesize then body else pure tt

-- One round of the loop that receives a file.
unfoldable pub receive_piece : ℕ → List ℕ → List ℕ → Io Process (List ℕ)
receive_piece size path buf = do
  full ← on_socket (recv_loop buf size)
  append_file path (take size full)
  pure full

-- The loop that receives a file.
unfoldable pub receive_contents : ℕ → ℕ → ℕ → List ℕ → List ℕ → Io Process (Unit {0})
receive_contents zero filesize progress path buf = pure tt
receive_contents (suc fuel) filesize progress path buf =
    let tmpsize = min buf_max_len (filesize - progress) in
    let rest = receive_contents fuel filesize (progress + tmpsize) path in
    let body = receive_piece tmpsize path buf >>= rest in
    if ltb progress filesize then body else pure tt
