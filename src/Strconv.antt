-- ===== src/Strconv.antt =====
-- Of Go's strconv and fmt: `ParseInt(s, 10, 64)`, and %d.
pub mod RoundTrip
use Prim.Native.Char.{code}
use Prim.Native.Nat.{◌/◌, ◌%◌}
use Prim.Native.String.{◌++◌, slice}
use transfer_demo.Prelude.{
  ℕ, zero, suc, ◌+◌, ◌*◌, ◌^◌, ◌-◌, ◌&&◌, Bool, true, false, Option, none, some, String, List, [],
  ◌∷◌, ℤ, pos, negsuc, ◌-ℤ◌, ltb, leb, if◌then◌else◌,
}

abbrev codes : String → List ℕ
codes String.[] = []
codes (String.◌∷◌ c s) = code c ∷ codes s

abbrev is_digit : ℕ → Bool
is_digit c = leb 48 c && leb c 57

unfoldable read_digits : ℕ → List ℕ → Option ℕ
read_digits acc [] = some acc
read_digits acc (c ∷ cs) =
    let rest = read_digits (acc * 10 + (c - 48)) cs in if is_digit c then rest else none

-- At least one digit.
abbrev read_number : List ℕ → Option ℕ
unfolding read_digits
read_number [] = none
read_number (c ∷ cs) = read_digits 0 (c ∷ cs)

abbrev below_2_63 : Option ℕ → Option ℤ
below_2_63 none = none
below_2_63 (some n) = if ltb n (2 ^ 63) then some (pos n) else none

abbrev down_to_2_63 : Option ℕ → Option ℤ
down_to_2_63 none = none
down_to_2_63 (some n) = if leb n (2 ^ 63) then some (pos 0 -ℤ pos n) else none

abbrev read_sign : List ℕ → Option ℤ
read_sign [] = none
read_sign (c ∷ cs) =
    if leb 45 c && leb c 45
    then down_to_2_63 (read_number cs)
    else if leb 43 c && leb c 43
    then below_2_63 (read_number cs)
    else below_2_63 (read_number (c ∷ cs))

-- `none` for both errors, of syntax and of range.
unfoldable pub parse_int : String → Option ℤ
unfolding read_digits
parse_int s = read_sign (codes s)

abbrev digit : ℕ → String
digit n = slice "0123456789" n (n + 1)

unfoldable write_digits : ℕ → ℕ → String
write_digits zero n = digit (n % 10)
write_digits (suc places) n = elim (leb n 9) [
  | true ↦ digit n
  | false ↦ write_digits places (n / 10) ++ digit (n % 10)
]

-- An int64 has 19 digits at most.
unfoldable pub format_int : ℤ → String
unfolding write_digits
format_int (pos n) = write_digits 19 n
format_int (negsuc n) = "-" ++ write_digits 19 (n + 1)
