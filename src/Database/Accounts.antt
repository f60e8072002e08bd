-- ===== src/Database/Accounts.antt =====
-- The accounts table by its primary key: searches after an update, in a selection, in id order.
use mathlib.Core.Option
use transfer_demo.Prelude.{
  ℕ, ◌+◌, ◌≡◌, refl, none, some, List, [], ◌∷◌, ℤ, eq_ℤ, eq_ℤ_iff, arith, if◌then◌else◌, ◌∙◌,
}
use transfer_demo.Database.Rows.{AccountRow, find_account}
use transfer_demo.Database.Statements.{set_balance, member, among, insert_by_id, order_by_id}

-- The primary key: no id stands twice.
abbrev pub IsUnique : List AccountRow → Type 0
IsUnique [] = Unit
IsUnique (r ∷ rows) = (find_account r.id rows ≡ none) × IsUnique rows

abbrev pub with_balance : ℤ → ℕ → AccountRow → AccountRow
with_balance balance now r = record r {
  balance = balance;
  version = r.version + 1;
  updated_at = now;
}

pub find_account-id :
    (id : ℤ) (rows : List AccountRow) {r : AccountRow} → find_account id rows ≡ some r → r.id ≡ id
find_account-id id [] e = cc
find_account-id id (s ∷ rows) {r} e =
    ground (arith, eq_ℤ_iff s.id id, find_account-id id rows {r = r})

pub find_account-set_balance :
    (id j balance : ℤ) (now : ℕ) (rows : List AccountRow)
    → find_account j (set_balance id balance now rows) ≡ (
        if eq_ℤ id j
        then Option.map (with_balance balance now) (find_account j rows)
        else find_account j rows)
find_account-set_balance id j balance now [] = ground arith
find_account-set_balance id j balance now (r ∷ rows) = ground (
  arith,
  eq_ℤ_iff r.id id,
  eq_ℤ_iff r.id j,
  eq_ℤ_iff id j,
  find_account-set_balance id j balance now rows,
)

pub find_account-insert_by_id :
    (j : ℤ) (r : AccountRow) (rows : List AccountRow)
    → find_account j (insert_by_id r rows) ≡ find_account j (r ∷ rows)
unfolding insert_by_id
find_account-insert_by_id j r [] = refl
find_account-insert_by_id j r (s ∷ rows) =
    ground (arith, eq_ℤ_iff r.id j, eq_ℤ_iff s.id j, find_account-insert_by_id j r rows)

-- Sorting by id changes no search.
pub find_account-order_by_id :
    (j : ℤ) (rows : List AccountRow) → find_account j (order_by_id rows) ≡ find_account j rows
unfolding order_by_id
find_account-order_by_id j [] = refl
find_account-order_by_id j (r ∷ rows) =
    ground
      (arith, find_account-insert_by_id j r (order_by_id rows), find_account-order_by_id j rows)

pub find_account-among :
    (j : ℤ) (ids : List ℤ) (rows : List AccountRow)
    → find_account j (among ids rows) ≡ (if member j ids then find_account j rows else none)
unfolding among
find_account-among j ids [] = ground arith
find_account-among j ids (r ∷ rows) = ground (arith, eq_ℤ_iff r.id j, find_account-among j ids rows)

IsUnique-insert_by_id :
    (r : AccountRow) (rows : List AccountRow)
    → find_account r.id rows ≡ none
    → IsUnique rows
    → IsUnique (insert_by_id r rows)
unfolding insert_by_id
IsUnique-insert_by_id r [] e u = (refl, tt)
IsUnique-insert_by_id r (s ∷ rows) e u = ground (
  arith,
  eq_ℤ_iff s.id r.id,
  eq_ℤ_iff r.id s.id,
  find_account-insert_by_id s.id r rows,
  IsUnique-insert_by_id r rows,
)

pub IsUnique-order_by_id : (rows : List AccountRow) → IsUnique rows → IsUnique (order_by_id rows)
unfolding order_by_id
IsUnique-order_by_id [] u = tt
IsUnique-order_by_id (r ∷ rows) u =
    IsUnique-insert_by_id r (order_by_id rows) (find_account-order_by_id r.id rows ∙ u.0)
      (IsUnique-order_by_id rows u.1)

pub IsUnique-among :
    (ids : List ℤ) (rows : List AccountRow) → IsUnique rows → IsUnique (among ids rows)
unfolding among
IsUnique-among ids [] u = tt
IsUnique-among ids (r ∷ rows) u =
    ground (arith, IsUnique-among ids rows, find_account-among r.id ids rows)

pub IsUnique-set_balance :
    (id balance : ℤ) (now : ℕ) (rows : List AccountRow)
    → IsUnique rows
    → IsUnique (set_balance id balance now rows)
IsUnique-set_balance id balance now [] u = tt
IsUnique-set_balance id balance now (r ∷ rows) u = ground (
  arith,
  find_account-set_balance id r.id balance now rows,
  IsUnique-set_balance id balance now rows,
)

-- An update of an account that is not there writes nothing.
pub set_balance_missing :
    (id balance : ℤ) (now : ℕ) (rows : List AccountRow)
    → find_account id rows ≡ none
    → set_balance id balance now rows ≡ rows
set_balance_missing id balance now [] e = refl
set_balance_missing id balance now (r ∷ rows) e =
    ground (arith, set_balance_missing id balance now rows)
