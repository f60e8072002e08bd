-- ===== src/Concurrency/Locks.antt =====
-- The order of the FOR UPDATE statement: ascending, each id once.
use transfer_demo.Prelude.{
  ◌+◌, ◌≡◌, none, true, List, [], ◌∷◌, ℤ, pos_part, neg_part, ◌<◌, eq_ℤ_refl, eq_ℤ_iff, arith, ◌∙◌,
}
use transfer_demo.Database.{AccountRow, find_account, has_account}
use transfer_demo.Database.Accounts.{IsUnique, find_account-order_by_id}
use transfer_demo.Database.Statements.{order_by_id, insert_by_id, among}
use transfer_demo.Concurrency.{ids_of}

infix 50 ◌<ℤ◌
abbrev pub ◌<ℤ◌ : ℤ → ℤ → Type 0
a <ℤ b = pos_part a + neg_part b < pos_part b + neg_part a

abbrev pub Above : ℤ → List ℤ → Type 0
Above i [] = Unit
Above i (j ∷ ids) = (i <ℤ j) × Above i ids

abbrev pub IsAscending : List ℤ → Type 0
IsAscending [] = Unit
IsAscending (i ∷ ids) = Above i ids × IsAscending ids

-- Every id names an account.
abbrev pub Exist : List AccountRow → List ℤ → Type 0
Exist rows [] = Unit
Exist rows (i ∷ ids) = (has_account i rows ≡ true) × Exist rows ids

Above-trans : (i j : ℤ) (ids : List ℤ) → i <ℤ j → Above j ids → Above i ids
Above-trans i j [] h a = tt
Above-trans i j (k ∷ ids) h a = (omega arith, Above-trans i j ids h a.1)

Above-insert_by_id :
    (i : ℤ) (r : AccountRow) (rows : List AccountRow)
    → i <ℤ r.id
    → Above i (ids_of rows)
    → Above i (ids_of (insert_by_id r rows))
unfolding insert_by_id
Above-insert_by_id i r [] h a = (h, tt)
Above-insert_by_id i r (s ∷ rows) h a = ground (arith, Above-insert_by_id i r rows)

IsAscending-insert_by_id :
    (r : AccountRow) (rows : List AccountRow)
    → find_account r.id rows ≡ none
    → IsAscending (ids_of rows)
    → IsAscending (ids_of (insert_by_id r rows))
unfolding insert_by_id
IsAscending-insert_by_id r [] f a = (tt, tt)
IsAscending-insert_by_id r (s ∷ rows) f a = ground (
  arith,
  eq_ℤ_iff s.id r.id,
  Above-trans r.id s.id (ids_of rows),
  Above-insert_by_id s.id r rows,
  IsAscending-insert_by_id r rows,
)

pub IsAscending-order_by_id :
    (rows : List AccountRow) → IsUnique rows → IsAscending (ids_of (order_by_id rows))
unfolding order_by_id
IsAscending-order_by_id [] u = tt
IsAscending-order_by_id (r ∷ rows) u =
    IsAscending-insert_by_id r (order_by_id rows) (find_account-order_by_id r.id rows ∙ u.0)
      (IsAscending-order_by_id rows u.1)

Exist-insert_by_id :
    (all : List AccountRow) (r : AccountRow) (rows : List AccountRow)
    → has_account r.id all ≡ true
    → Exist all (ids_of rows)
    → Exist all (ids_of (insert_by_id r rows))
unfolding insert_by_id
Exist-insert_by_id all r [] h e = (h, tt)
Exist-insert_by_id all r (s ∷ rows) h e = ground (arith, Exist-insert_by_id all r rows)

Exist-order_by_id :
    (all rows : List AccountRow) → Exist all (ids_of rows) → Exist all (ids_of (order_by_id rows))
unfolding order_by_id
Exist-order_by_id all [] e = tt
Exist-order_by_id all (r ∷ rows) e =
    Exist-insert_by_id all r (order_by_id rows) e.0 (Exist-order_by_id all rows e.1)

-- A longer table.
Exist-cons :
    (r : AccountRow) (rows : List AccountRow) (ids : List ℤ) → Exist rows ids → Exist (r ∷ rows) ids
Exist-cons r rows [] e = tt
Exist-cons r rows (i ∷ ids) e = (ground arith, Exist-cons r rows ids e.1)

Exist-among : (ids : List ℤ) (rows : List AccountRow) → Exist rows (ids_of (among ids rows))
unfolding among
Exist-among ids [] = tt
Exist-among ids (r ∷ rows) =
    ground
      (arith, eq_ℤ_refl r.id, Exist-cons r rows (ids_of (among ids rows)), Exist-among ids rows)

pub Exist-lock_order :
    (ids : List ℤ) (rows : List AccountRow) → Exist rows (ids_of (order_by_id (among ids rows)))
Exist-lock_order ids rows = Exist-order_by_id rows (among ids rows) (Exist-among ids rows)
