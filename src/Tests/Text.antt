-- ===== src/Tests/Text.antt =====
-- Texts of errors and of numbers.
use transfer_demo.Prelude.{◌≡◌, refl, some, none, pos, negsuc, ◌-ℤ◌}
use transfer_demo.Strconv.{parse_int}
use transfer_demo.Domain.{wrap, account_not_found_error, error_text}

reads : parse_int "-42" ≡ some (negsuc 41)
unfolding parse_int ◌-ℤ◌
reads = refl

reads_max : parse_int "9223372036854775807" ≡ some (pos 9223372036854775807)
unfolding parse_int
reads_max = refl

reads_no_more : parse_int "9223372036854775808" ≡ none
unfolding parse_int
reads_no_more = refl

writes :
    error_text (wrap "commit" (account_not_found_error (pos 1203)))
    ≡ "commit: account 1203 not found"
unfolding error_text
writes = refl
