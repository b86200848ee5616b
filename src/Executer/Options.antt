-- ===== src/Executer/Options.antt =====
-- samples/command_executer/src/command_parser.rs and main.rs: the arguments of the sample, and its main
-- function. The library that reads the command line answers with the text of each argument.
use aws_nitro_enclaves_cli.Common.{ℕ, Bool, Option, none, some, List}
use aws_nitro_enclaves_cli.Common.Int.{ℤ, pos}
use aws_nitro_enclaves_cli.Text.{parse_u32}
use aws_nitro_enclaves_cli.Executer.{Outcome, done, failed, panicked, blocked, Io, pure, ◌>>◌}
use aws_nitro_enclaves_cli.Executer.Process.{System, Process}
use aws_nitro_enclaves_cli.Executer.Server.{Setup, listen}
use aws_nitro_enclaves_cli.Executer.Client.{run, recv_file, send_file}

pub record Matches : Type 0 where
  pub cid : Option (List ℕ)
  pub port : Option (List ℕ)
  pub command : Option (List ℕ)
  pub localpath : Option (List ℕ)
  pub remotepath : Option (List ℕ)
  pub no_wait : Bool

-- The texts of the errors.
pub data Refusal : Type 0 where
  could_not_find_cid could_not_find_port could_not_find_command : Refusal
  could_not_find_localpath could_not_find_remotepath : Refusal
  cid_is_not_a_number port_is_not_a_number : Refusal

pub data Parsed {ℓ} (A : Type ℓ) : Type ℓ where
  accepted : A → Parsed A
  refused : Refusal → Parsed A

module _ {ℓ κ} {A : Type ℓ} {B : Type κ} where
  infixl 5 ◌>>=◌
  abbrev ◌>>=◌ : Parsed A → (A → Parsed B) → Parsed B
  accepted a >>= f = f a
  refused e >>= f = refused e

abbrev ok_or {ℓ} : {A : Type ℓ} → Refusal → Option A → Parsed A
ok_or e none = refused e
ok_or e (some a) = accepted a

unfoldable pub parse_cid : Matches → Parsed ℕ
parse_cid args = do
  text ← ok_or could_not_find_cid args.cid
  ok_or cid_is_not_a_number (parse_u32 text)

unfoldable pub parse_port : Matches → Parsed ℕ
parse_port args = do
  text ← ok_or could_not_find_port args.port
  ok_or port_is_not_a_number (parse_u32 text)

unfoldable pub parse_command : Matches → Parsed (List ℕ)
parse_command args = ok_or could_not_find_command args.command

unfoldable pub parse_no_wait : Matches → Bool
parse_no_wait args = args.no_wait

unfoldable pub parse_localfile : Matches → Parsed (List ℕ)
parse_localfile args = ok_or could_not_find_localpath args.localpath

unfoldable pub parse_remotefile : Matches → Parsed (List ℕ)
parse_remotefile args = ok_or could_not_find_remotepath args.remotepath

pub record ListenArgs : Type 0 where
  pub port : ℕ

pub record RunArgs : Type 0 where
  pub cid : ℕ
  pub port : ℕ
  pub command : List ℕ
  pub no_wait : Bool

pub record FileArgs : Type 0 where
  pub cid : ℕ
  pub port : ℕ
  pub localfile : List ℕ
  pub remotefile : List ℕ

unfoldable pub listen_args : Matches → Parsed ListenArgs
listen_args args = do port ← parse_port args; accepted (record { port = port })

unfoldable pub run_args : Matches → Parsed RunArgs
run_args args = do
  cid ← parse_cid args
  port ← parse_port args
  command ← parse_command args
  accepted (record { cid = cid; port = port; command = command; no_wait = parse_no_wait args })

unfoldable pub file_args : Matches → Parsed FileArgs
file_args args = do
  cid ← parse_cid args
  port ← parse_port args
  localfile ← parse_localfile args
  remotefile ← parse_remotefile args
  accepted (record { cid = cid; port = port; localfile = localfile; remotefile = remotefile })

pub data Subcommand : Type 0 where
  listen_matches run_matches recv_file_matches send_file_matches : Matches → Subcommand
  no_subcommand : Subcommand

-- `unwrap`: an error ends the program.
abbrev unwrap {ℓ} : {A : Type ℓ} → Outcome A × Process → Outcome A × Process
unwrap (done a, p) = (done a, p)
unwrap (failed e, p) = (panicked, p)
unwrap (panicked, p) = (panicked, p)
unwrap (blocked, p) = (blocked, p)

abbrev with_args {ℓ} : {A : Type ℓ} → Parsed A → (A → Io Process ℤ) → Io Process ℤ
with_args (accepted a) f p = unwrap (f a p)
with_args (refused e) f p = (panicked, p)

-- The code that the program exits with.
unfoldable pub main : System → Setup → Subcommand → Io Process ℤ
main sys setup (listen_matches args) =
    with_args (listen_args args) (λ a. listen sys setup >> pure (pos 0))
main sys setup (run_matches args) = with_args (run_args args) (λ a. run sys a.no_wait a.command)
main sys setup (recv_file_matches args) =
    with_args (file_args args) (λ a. recv_file sys a.localfile a.remotefile >> pure (pos 0))
main sys setup (send_file_matches args) =
    with_args (file_args args) (λ a. send_file sys a.localfile a.remotefile >> pure (pos 0))
main sys setup no_subcommand = pure (pos 0)
