-- ===== src/Cli/Tests.antt =====
-- Two enclaves named a and a_1, a console that sends two chunks, and a process that knows the name.
use aws_nitro_enclaves_cli.Common.{ℕ, ◌<◌, ◌≡◌, true, false, none, some, List, [], ◌∷◌}
use aws_nitro_enclaves_cli.Cli.Names.{contains, base_name, new_enclave_name}
use aws_nitro_enclaves_cli.Cli.Unique.{name_at, new_enclave_name-free}
use aws_nitro_enclaves_cli.Cli.Console.{ConsoleEvent, interrupted, timer, console, Output}

abbrev names : List (List ℕ)
names = (b'a' ∷ []) ∷ (b'a' ∷ b'_' ∷ b'1' ∷ []) ∷ []

-- "dir/a.eif"
abbrev path : List ℕ
path = b'd' ∷ b'i' ∷ b'r' ∷ b'/' ∷ b'a' ∷ b'.' ∷ b'e' ∷ b'i' ∷ b'f' ∷ []

new_enclave_name-free_example :
    (idx : ℕ) × (new_enclave_name path none names ≡ some (name_at (base_name path none) idx))
    × (contains names (name_at (base_name path none) idx) ≡ false)
    × ((i : ℕ) → i < idx → contains names (name_at (base_name path none) i) ≡ true)
new_enclave_name-free_example = new_enclave_name-free path none names

abbrev events : List ConsoleEvent
events = console (some (1 ∷ 2 ∷ [])) ∷ interrupted ∷ console (some (3 ∷ [])) ∷ timer ∷ []

abbrev terminal : Output
terminal = record { written = []; writes = 5; accepts = 1024 }
