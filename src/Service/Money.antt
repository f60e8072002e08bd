-- ===== src/Service/Money.antt =====
-- internal/service/money.go. A function that returns an error alone gives `none` for nil.
pub mod Laws
use transfer_demo.Prelude.{Option, none, some, ℤ, pos, negsuc, ltb_ℤ, leb_ℤ, if◌then◌else◌}
use transfer_demo.Decimal.{Decimal}
use transfer_demo.Domain.{GoError, sentinel, invalid_account_id, invalid_amount}

abbrev pub max_decimal_places : ℤ
max_decimal_places = pos 18

-- -maxDecimalPlaces
abbrev pub min_exponent : ℤ
min_exponent = negsuc 17

unfoldable pub validate_account_id : ℤ → Option GoError
validate_account_id id = if leb_ℤ id (pos 0) then some (sentinel invalid_account_id) else none

module _ ⦃dec : Decimal⦄ where
  abbrev pub max_value : dec.Value
  max_value = dec.new (pos 1) (pos 20)

  unfoldable pub check_range_and_scale : dec.Value → Option GoError
  check_range_and_scale v =
      if ltb_ℤ (dec.exponent v) min_exponent
      then some (sentinel invalid_amount)
      else if dec.greater_than_or_equal (dec.abs v) max_value
      then some (sentinel invalid_amount)
      else none

  unfoldable pub validate_amount : dec.Value → Option GoError
  unfolding check_range_and_scale
  validate_amount amount =
      if leb_ℤ (dec.sign amount) (pos 0)
      then some (sentinel invalid_amount)
      else check_range_and_scale amount

  unfoldable pub validate_initial_balance : dec.Value → Option GoError
  unfolding check_range_and_scale
  validate_initial_balance balance =
      if ltb_ℤ (dec.sign balance) (pos 0)
      then some (sentinel invalid_amount)
      else check_range_and_scale balance
