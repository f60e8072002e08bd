-- ===== src/Strconv/RoundTrip.antt =====
-- ParseInt reads what %d writes.
use Prim.Native.Nat.{◌/◌, ◌%◌}
use Prim.Native.Char.{code}
use text.Mathlib.TextLemmas.{nil-append, cons-append}
use Prim.Native.String.{◌++◌ as str_append}
use transfer_demo.Prelude.{
  ℕ, zero, suc, ◌+◌, ◌*◌, ◌^◌, ◌-◌, ◌<◌, ◌≡◌, refl, ap, ◌∙◌, Bool, true, false, ◌⊎◌, inl, inr, some,
  String, List, [], ◌∷◌, ◌++◌, pos, leb, arith,
}
use transfer_demo.Strconv.{
  codes, read_digits, read_number, read_sign, below_2_63, parse_int, digit, write_digits,
  format_int,
}

codes-append : (s t : String) → codes (str_append s t) ≡ codes s ++ codes t
codes-append String.[] t = rw nil-append refl
codes-append (String.◌∷◌ c s) t =
    rw cons-append (ap (λ (l : List ℕ). code c ∷ l) (codes-append s t))

codes-digit : (d : ℕ) → d < 10 → codes (digit d) ≡ (48 + d) ∷ []
codes-digit zero h = refl
codes-digit (suc zero) h = refl
codes-digit (suc (suc zero)) h = refl
codes-digit (suc (suc (suc zero))) h = refl
codes-digit (suc (suc (suc (suc zero)))) h = refl
codes-digit (suc (suc (suc (suc (suc zero))))) h = refl
codes-digit (suc (suc (suc (suc (suc (suc zero)))))) h = refl
codes-digit (suc (suc (suc (suc (suc (suc (suc zero))))))) h = refl
codes-digit (suc (suc (suc (suc (suc (suc (suc (suc zero)))))))) h = refl
codes-digit (suc (suc (suc (suc (suc (suc (suc (suc (suc zero))))))))) h = refl
codes-digit (suc (suc (suc (suc (suc (suc (suc (suc (suc (suc d)))))))))) h =
    absurd (omega (arith, h))

-- One more digit at the end.
read_digits-snoc :
    (acc : ℕ) (cs : List ℕ) (n d : ℕ)
    → d < 10
    → read_digits acc cs ≡ some n
    → read_digits acc (cs ++ ((48 + d) ∷ [])) ≡ some (n * 10 + d)
unfolding read_digits
read_digits-snoc acc [] n d h e = ground arith
read_digits-snoc acc (c ∷ cs) n d h e =
    ground (arith, read_digits-snoc (acc * 10 + (c - 48)) cs n d h)

-- The places are enough: the last clause writes one digit.
abbrev HasPlaces : ℕ → ℕ → Type 0
HasPlaces zero n = n < 10
HasPlaces (suc places) n = HasPlaces places (n / 10)

int64-HasPlaces : (n : ℕ) → n < 2 ^ 63 + 1 → HasPlaces 19 n
int64-HasPlaces n h = omega arith

read_digits-digit : (n : ℕ) → n < 10 → read_digits 0 (codes (digit n)) ≡ some n
unfolding read_digits
read_digits-digit n h = rw (codes-digit n h) (ground arith)

-- The last digit, and those before it.
write_digits-split :
    (places n : ℕ)
    → (write_digits (suc places) n ≡ digit n) × (n < 10)
      ⊎ (write_digits (suc places) n ≡ str_append (write_digits places (n / 10)) (digit (n % 10)))
unfolding write_digits
write_digits-split places n = by (leb n 9) refl
  where
    by :
        (b : Bool)
        → leb n 9 ≡ b
        → ((elim b as (λ _. String) [
          | true ↦ digit n
          | false ↦ str_append (write_digits places (n / 10)) (digit (n % 10))
        ]
              ≡ digit n)
            × (n < 10))
          ⊎ (elim b as (λ _. String) [
            | true ↦ digit n
            | false ↦ str_append (write_digits places (n / 10)) (digit (n % 10))
          ]
              ≡ str_append (write_digits places (n / 10)) (digit (n % 10)))
    by true e = inl (refl, ground arith)
    by false e = inr refl

read_digits-write_digits :
    (places n : ℕ) → HasPlaces places n → read_digits 0 (codes (write_digits places n)) ≡ some n
unfolding write_digits
read_digits-write_digits zero n h =
    read_digits-digit (n % 10) (omega arith) ∙ ap some (omega (arith, h))
read_digits-write_digits (suc places) n h = elim (write_digits-split places n) [
  | inl (e, few) ↦ rw e (read_digits-digit n few)
  | inr e ↦
      rw (e, codes-append, codes-digit (n % 10) (omega arith))
        (read_digits-snoc 0 (codes (write_digits places (n / 10))) (n / 10) (n % 10) (omega arith)
            (read_digits-write_digits places (n / 10) h)
          ∙ ap some (omega arith))
]

snoc-cons : (cs : List ℕ) (d : ℕ) → (c : ℕ) × (rest : List ℕ) × (cs ++ (d ∷ []) ≡ c ∷ rest)
snoc-cons [] d = (d, [], refl)
snoc-cons (c ∷ cs) d = (c, cs ++ (d ∷ []), refl)

write_digits-cons :
    (places n : ℕ) → (c : ℕ) × (rest : List ℕ) × (codes (write_digits places n) ≡ c ∷ rest)
unfolding write_digits
write_digits-cons zero n = (48 + n % 10, [], codes-digit (n % 10) (omega arith))
write_digits-cons (suc places) n = elim (write_digits-split places n) [
  | inl (e, few) ↦ rw e (48 + n, [], codes-digit n few)
  | inr e ↦
      rw (e, codes-append, codes-digit (n % 10) (omega arith))
        (snoc-cons (codes (write_digits places (n / 10))) (48 + n % 10))
]

-- A number starts with no sign.
read_sign-digits :
    (c : ℕ) (cs : List ℕ) (n : ℕ)
    → read_digits 0 (c ∷ cs) ≡ some n
    → read_sign (c ∷ cs) ≡ below_2_63 (some n)
unfolding read_digits
read_sign-digits c cs n e = ground arith

read_number-digits :
    (c : ℕ) (cs : List ℕ) (n : ℕ) → read_digits 0 (c ∷ cs) ≡ some n → read_number (c ∷ cs) ≡ some n
unfolding read_number read_digits
read_number-digits c cs n e = e

pub parse_int-format_int : (n : ℕ) → n < 2 ^ 63 → parse_int (format_int (pos n)) ≡ some (pos n)
unfolding parse_int format_int
parse_int-format_int n h =
    let (c, rest, e) = write_digits-cons 19 n in
    rw e (
      read_sign-digits c rest n
        (rw e at (read_digits-write_digits 19 n (int64-HasPlaces n (omega (arith, h)))))
      ∙ ground (arith, h))
