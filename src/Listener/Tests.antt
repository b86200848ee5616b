-- ===== src/Listener/Tests.antt =====
-- A listener that runs, and the sockets of two enclaves.
use aws_nitro_enclaves_cli.Common.{ℕ, List, [], ◌∷◌, ◌++◌}
use aws_nitro_enclaves_cli.EnclaveId.{no_tag, enc}
use aws_nitro_enclaves_cli.Listener.{Listening}
use aws_nitro_enclaves_cli.Host.Machine.{host, machine, listener}

abbrev listening : Listening host
listening = record { listener = listener; sys = machine }

-- The IDs of the enclaves with the slots 1 and 1.
abbrev first_id : List ℕ
first_id = no_tag ++ enc ++ b'1' ∷ []

abbrev slot : ℕ
slot = 1
