-- ===== src/Service/Money/Laws.antt =====
-- What the validations accept, in terms of the units that an amount stands for.
use transfer_demo.Prelude.{◌^◌, ◌-◌, ◌*◌, ◌+◌, ◌≡◌, ◌↔◌, none, ℤ, pos, ◌≤ℤ◌, ◌-ℤ◌, leb_ℤ, arith}
use transfer_demo.Decimal.{Decimal, DecimalLaws, IsScaled, abs_ℤ}
use transfer_demo.Service.Money.{
  validate_account_id, max_value, check_range_and_scale, validate_amount, validate_initial_balance,
}

-- 10^20 less one unit.
abbrev pub max_units : ℤ
max_units = pos (10 ^ 38 - 1)

pub validate_account_id_iff : (id : ℤ) → (validate_account_id id ≡ none) ↔ (pos 1 ≤ℤ id)
unfolding validate_account_id
validate_account_id_iff id = ground arith

module _ ⦃dec : Decimal⦄ where
  -- What a column of NUMERIC(38, 18) holds exactly, from `least` on.
  abbrev pub IsStorable : ℤ → dec.Value → Type 0
  IsStorable least v =
      IsScaled dec v × (least ≤ℤ dec.to_numeric v) × (dec.to_numeric v ≤ℤ max_units)

  module _ (laws : DecimalLaws dec) where
    max_value-IsScaled : IsScaled dec max_value
    max_value-IsScaled = rw (laws.new-exponent 1 20) (omega arith)

    exceeds :
        (v : dec.Value)
        → IsScaled dec v
        → dec.greater_than_or_equal (dec.abs v) max_value
          ≡ leb_ℤ (pos (1 * 10 ^ (20 + 18))) (abs_ℤ (dec.to_numeric v))
    exceeds v h = rw (
      laws.greater_than_or_equal-units (dec.abs v) max_value (rw (laws.abs-exponent v) h)
          max_value-IsScaled,
      laws.abs-units v h,
      laws.new-units 1 20,
    )

    unchecked : (v : dec.Value) → check_range_and_scale v ≡ none → IsScaled dec v
    unfolding check_range_and_scale
    unchecked v h = ground arith

    -- An amount is accepted exactly when it has at most 18 decimals, is at least 10^-18 and below
    -- 10^20.
    pub validate_amount_iff : (v : dec.Value) → (validate_amount v ≡ none) ↔ IsStorable (pos 1) v
    unfolding validate_amount ◌-ℤ◌
    validate_amount_iff v = (
      λ e.
          let s : IsScaled dec v = unchecked v (ground arith) in
          let positive : pos 1 ≤ℤ dec.to_numeric v = ground (arith, laws.sign-units v s) in
          (s, positive, ground (arith, exceeds v s)),
      λ h. ground (arith, laws.sign-units v h.0, exceeds v h.0),
    )

    -- An opening balance is accepted exactly when it has at most 18 decimals, is at least 0 and
    -- below 10^20.
    pub validate_initial_balance_iff :
        (v : dec.Value) → (validate_initial_balance v ≡ none) ↔ IsStorable (pos 0) v
    unfolding validate_initial_balance ◌-ℤ◌
    validate_initial_balance_iff v = (
      λ e.
          let s : IsScaled dec v = unchecked v (ground arith) in
          let positive : pos 0 ≤ℤ dec.to_numeric v = ground (arith, laws.sign-units v s) in
          (s, positive, ground (arith, exceeds v s)),
      λ h. ground (arith, laws.sign-units v h.0, exceeds v h.0),
    )
