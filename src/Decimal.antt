-- ===== src/Decimal.antt =====
-- github.com/shopspring/decimal and the codec of github.com/jackc/pgx-shopspring-decimal, which
-- are not in the repository: an interface of operations, and the documented laws that the code
-- relies on. An amount that fits the scale of NUMERIC(38, 18) is read as the whole number of units
-- of 10^-18 that it stands for.
use transfer_demo.Prelude.{
  ℕ, ◌+◌, ◌*◌, ◌^◌, ◌≡◌, Bool, ℤ, pos, negsuc, ◌+ℤ◌, ◌-ℤ◌, ◌≤ℤ◌, ltb_ℤ, leb_ℤ, if◌then◌else◌, eq_ℤ,
}

pub record Decimal : Type 1 where
  pub Value : Type 0
  pub new : ℤ → ℤ → Value
  pub sign : Value → ℤ
  pub exponent : Value → ℤ
  pub abs : Value → Value
  pub less_than : Value → Value → Bool
  pub greater_than_or_equal : Value → Value → Bool
  pub equal : Value → Value → Bool
  pub add : Value → Value → Value
  pub sub : Value → Value → Value
  -- A value as a NUMERIC column of scale 18 holds it, in units of 10^-18, and one read back.
  pub to_numeric : Value → ℤ
  pub of_numeric : ℤ → Value

-- -1, 0 or 1.
abbrev pub sign_ℤ : ℤ → ℤ
sign_ℤ a = if ltb_ℤ a (pos 0) then negsuc 0 else if ltb_ℤ (pos 0) a then pos 1 else pos 0

abbrev pub abs_ℤ : ℤ → ℤ
abs_ℤ a = if ltb_ℤ a (pos 0) then pos 0 -ℤ a else a

-- At most 18 digits stand behind the point, so that a column of scale 18 holds the value exactly.
abbrev pub IsScaled : (dec : Decimal) → dec.Value → Type 0
IsScaled dec v = negsuc 17 ≤ℤ dec.exponent v

-- What the documentation of the package says of values that the column holds exactly.
pub record DecimalLaws (dec : Decimal) : Type 0 where
  pub new-exponent : (n k : ℕ) → dec.exponent (dec.new (pos n) (pos k)) ≡ pos k
  pub new-units : (n k : ℕ) → dec.to_numeric (dec.new (pos n) (pos k)) ≡ pos (n * 10 ^ (k + 18))
  pub sign-units : (v : dec.Value) → IsScaled dec v → dec.sign v ≡ sign_ℤ (dec.to_numeric v)
  pub abs-exponent : (v : dec.Value) → dec.exponent (dec.abs v) ≡ dec.exponent v
  pub abs-units :
      (v : dec.Value) → IsScaled dec v → dec.to_numeric (dec.abs v) ≡ abs_ℤ (dec.to_numeric v)
  pub less_than-units :
      (v w : dec.Value)
      → IsScaled dec v
      → IsScaled dec w
      → dec.less_than v w ≡ ltb_ℤ (dec.to_numeric v) (dec.to_numeric w)
  pub greater_than_or_equal-units :
      (v w : dec.Value)
      → IsScaled dec v
      → IsScaled dec w
      → dec.greater_than_or_equal v w ≡ leb_ℤ (dec.to_numeric w) (dec.to_numeric v)
  pub equal-units :
      (v w : dec.Value)
      → IsScaled dec v
      → IsScaled dec w
      → dec.equal v w ≡ eq_ℤ (dec.to_numeric v) (dec.to_numeric w)
  pub add-scaled : (v w : dec.Value) → IsScaled dec v → IsScaled dec w → IsScaled dec (dec.add v w)
  pub add-units :
      (v w : dec.Value)
      → IsScaled dec v
      → IsScaled dec w
      → dec.to_numeric (dec.add v w) ≡ dec.to_numeric v +ℤ dec.to_numeric w
  pub sub-scaled : (v w : dec.Value) → IsScaled dec v → IsScaled dec w → IsScaled dec (dec.sub v w)
  pub sub-units :
      (v w : dec.Value)
      → IsScaled dec v
      → IsScaled dec w
      → dec.to_numeric (dec.sub v w) ≡ dec.to_numeric v -ℤ dec.to_numeric w
  pub of_numeric-scaled : (n : ℤ) → IsScaled dec (dec.of_numeric n)
  pub of_numeric-units : (n : ℤ) → dec.to_numeric (dec.of_numeric n) ≡ n
