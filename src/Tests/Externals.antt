-- ===== src/Tests/Externals.antt =====
-- A decimal that is a number of units with the exponent of its notation, and UUIDs of one digit.
use text.Mathlib.Text.{◌==◌}
use transfer_demo.Prelude.{
  ℕ, ◌*◌, ◌^◌, ◌+◌, refl, Bool, false, true, Option, none, some, String, ℤ, pos, negsuc, pos_part,
  ◌+ℤ◌, ◌-ℤ◌, ◌≤ℤ◌, ltb_ℤ, leb_ℤ, eq_ℤ, if◌then◌else◌, arith,
}
use transfer_demo.Decimal.{Decimal, DecimalLaws, sign_ℤ, abs_ℤ}
use transfer_demo.Uuid.{UuidCodec}

pub record Fixed : Type 0 where
  pub units : ℤ
  pub exponent : ℤ

abbrev smaller : ℤ → ℤ → ℤ
smaller a b = if leb_ℤ a b then a else b

instance abbrev pub fixed : Decimal
fixed = record {
  Value = Fixed;
  new = λ n k. record { units = pos (pos_part n * 10 ^ (pos_part k + 18)); exponent = k };
  sign = λ v. sign_ℤ v.units;
  exponent = λ v. v.exponent;
  abs = λ v. record v { units = abs_ℤ v.units };
  less_than = λ v w. ltb_ℤ v.units w.units;
  greater_than_or_equal = λ v w. leb_ℤ w.units v.units;
  equal = λ v w. eq_ℤ v.units w.units;
  add = λ v w. record { units = v.units +ℤ w.units; exponent = smaller v.exponent w.exponent };
  sub = λ v w. record { units = v.units -ℤ w.units; exponent = smaller v.exponent w.exponent };
  to_numeric = λ v. v.units;
  of_numeric = λ n. record { units = n; exponent = negsuc 17 };
}

pub smaller-scaled : (a b : ℤ) → negsuc 17 ≤ℤ a → negsuc 17 ≤ℤ b → negsuc 17 ≤ℤ smaller a b
smaller-scaled a b h k = ground arith

abbrev pub fixed_laws : DecimalLaws fixed
fixed_laws = record {
  new-exponent = λ n k. refl;
  new-units = λ n k. refl;
  sign-units = λ v h. refl;
  abs-exponent = λ v. refl;
  abs-units = λ v h. refl;
  less_than-units = λ v w h k. refl;
  greater_than_or_equal-units = λ v w h k. refl;
  equal-units = λ v w h k. refl;
  add-scaled = λ v w h k. smaller-scaled v.exponent w.exponent h k;
  add-units = λ v w h k. refl;
  sub-scaled = λ v w h k. smaller-scaled v.exponent w.exponent h k;
  sub-units = λ v w h k. refl;
  of_numeric-scaled = λ n. omega arith;
  of_numeric-units = λ n. refl;
}

-- 10^-18, n times.
abbrev pub units : ℤ → Fixed
units n = record { units = n; exponent = negsuc 17 }

abbrev digit : String → Option ℕ
digit s = if s == "k1" then some 1 else if s == "k2" then some 2 else none

abbrev digit_text : ℕ → String
digit_text n = if eq_ℤ (pos n) (pos 1) then "k1" else "k2"

abbrev is_digit : Option ℕ → Bool
is_digit none = false
is_digit (some n) = true

instance abbrev pub one_digit : UuidCodec
one_digit = record { parses = λ s. is_digit (digit s); cast = digit; text = digit_text }
