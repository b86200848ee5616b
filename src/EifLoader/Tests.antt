-- ===== src/EifLoader/Tests.antt =====
-- The wait for a heart beat that comes.
use aws_nitro_enclaves_cli.Common.{◌≡◌, refl, true, none, some}
use aws_nitro_enclaves_cli.EifLoader.{BootAnswers, heart_beat, enclave_ready}

abbrev beats : BootAnswers
beats = record { poll = some 1; accepts = true; read = some (1, heart_beat); writes = true }

beats-ready : enclave_ready beats ≡ none
unfolding enclave_ready
beats-ready = refl
