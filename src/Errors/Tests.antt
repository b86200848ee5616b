-- ===== src/Errors/Tests.antt =====
-- An error of a hasher.
use aws_nitro_enclaves_cli.Common.{◌≡◌, ◌↔◌, true, false}
use aws_nitro_enclaves_cli.Failure.{hasher_error}
use aws_nitro_enclaves_cli.Errors.{error_code, find_text}
use aws_nitro_enclaves_cli.Errors.Details.{details}
use aws_nitro_enclaves_cli.Errors.Explanations.{explanations}
use aws_nitro_enclaves_cli.Errors.Documented.{is_some, IsUnexplained, documented_iff}

documented_iff_example :
    (is_some (find_text details (error_code hasher_error)) ≡ true)
    × ((is_some (find_text explanations (error_code hasher_error)) ≡ false)
        ↔ IsUnexplained hasher_error)
documented_iff_example = documented_iff hasher_error
