-- ===== src/Repository/Errors.antt =====
-- internal/repository/errors.go.
use text.Mathlib.Text.{◌==◌}
use transfer_demo.Prelude.{Bool, ◌&&◌, Option, none, some, String}
use transfer_demo.Domain.{GoError, PgError, errors_as_pg_error}

abbrev pub code_unique_violation : String
code_unique_violation = "23505"

abbrev pub code_check_violation : String
code_check_violation = "23514"

abbrev code_of : Option PgError → String
code_of none = ""
code_of (some e) = e.code

abbrev constraint_of : Option PgError → String
constraint_of none = ""
constraint_of (some e) = e.constraint_name

unfoldable pub pg_error_code : GoError → String
unfolding errors_as_pg_error
pg_error_code e = code_of (errors_as_pg_error e)

unfoldable pub constraint_name : GoError → String
unfolding errors_as_pg_error
constraint_name e = constraint_of (errors_as_pg_error e)

unfoldable pub is_unique_violation : GoError → String → Bool
unfolding pg_error_code constraint_name
is_unique_violation e constraint =
    pg_error_code e == code_unique_violation && constraint_name e == constraint
