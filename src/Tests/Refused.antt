-- ===== src/Tests/Refused.antt =====
-- Commands that cannot be carried out.
use transfer_demo.Prelude.{◌≡◌, refl, none, pos, eq_ℤ, ◌-ℤ◌}
use transfer_demo.Database.{AccountRow}
use transfer_demo.Service.Money.{validate_account_id, validate_amount, check_range_and_scale}
use transfer_demo.Service.Transfers.{TransferCmd, validate, first_error, check_key}
use transfer_demo.Tests.Externals.{fixed, one_digit, units}
use transfer_demo.Tests.Runs.{order}

abbrev pub short_of : TransferCmd fixed
short_of = record order { amount = units (pos 101) }

abbrev pub first_row : AccountRow
first_row = record { id = pos 1; balance = pos 100; version = 0; created_at = 0; updated_at = 0 }

abbrev pub second_row : AccountRow
second_row = record { id = pos 2; balance = pos 5; version = 0; created_at = 0; updated_at = 0 }

short_of_valid : validate short_of ≡ none
unfolding validate validate_account_id validate_amount check_range_and_scale first_error check_key
    eq_ℤ ◌-ℤ◌
short_of_valid = refl
