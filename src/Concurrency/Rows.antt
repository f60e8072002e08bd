-- ===== src/Concurrency/Rows.antt =====
-- The rows that a session holds, against the table as it changes.
use transfer_demo.Prelude.{
  ◌≡◌, refl, sym, ◌∙◌, true, none, some, List, [], ◌∷◌, ℤ, eq_ℤ_refl, eq_ℤ_iff, arith,
}
use transfer_demo.Decimal.{Decimal}
use transfer_demo.Uuid.{UuidCodec}
use transfer_demo.Domain.{Account}
use transfer_demo.Database.{Database, AccountRow, find_account, has_account}
use transfer_demo.Database.Accounts.{IsUnique}
use transfer_demo.Repository.GoMap.{lookup}
use transfer_demo.Repository.Accounts.Laws.{collect, lookup-collect, or_else-none}
use transfer_demo.Service.Transfers.Effect.{ReadRow, scanned}
use transfer_demo.Concurrency.Locks.{◌<ℤ◌, Above, IsAscending, Exist}

-- The rows are as the table has them.
abbrev pub Current : List AccountRow → List AccountRow → Type 0
Current table [] = Unit
Current table (r ∷ rows) = (find_account r.id table ≡ some r) × Current table rows

abbrev pub AllBelow : List AccountRow → ℤ → Type 0
AllBelow [] id = Unit
AllBelow (r ∷ rows) id = (r.id <ℤ id) × AllBelow rows id

-- What is held stands below all that is asked for.
abbrev pub IsQueued : List AccountRow → List ℤ → Type 0
IsQueued rows [] = Unit
IsQueued rows (id ∷ ids) = AllBelow rows id × IsQueued rows ids

pub record IsHolding (table rows : List AccountRow) (ids : List ℤ) : Type 0 where
  pub current : Current table rows
  pub unique : IsUnique rows
  pub queued : IsQueued rows ids
  pub ascending : IsAscending ids
  pub exist : Exist table ids

-- The table has changed outside of the rows, and has lost no account.
pub record Spares (rows table table' : List AccountRow) : Type 0 where
  pub same : (j : ℤ) → has_account j rows ≡ true → find_account j table' ≡ find_account j table
  pub kept : (j : ℤ) → has_account j table ≡ true → has_account j table' ≡ true

pub Spares-refl : (rows table : List AccountRow) → Spares rows table table
Spares-refl rows table = record { same = λ j h. refl; kept = λ j h. h }

Current-mono :
    (rows table table' : List AccountRow)
    → ((j : ℤ) → has_account j rows ≡ true → find_account j table' ≡ find_account j table)
    → Current table rows
    → Current table' rows
Current-mono [] table table' same c = tt
Current-mono (r ∷ rows) table table' same c = (
  same r.id (ground (arith, eq_ℤ_refl r.id)) ∙ c.0,
  Current-mono rows table table' (λ j h. same j (ground arith)) c.1,
)

Exist-mono :
    (ids : List ℤ) (table table' : List AccountRow)
    → ((j : ℤ) → has_account j table ≡ true → has_account j table' ≡ true)
    → Exist table ids
    → Exist table' ids
Exist-mono [] table table' kept e = tt
Exist-mono (i ∷ ids) table table' kept e = (kept i e.0, Exist-mono ids table table' kept e.1)

pub IsHolding_mono :
    (rows : List AccountRow) (ids : List ℤ) (table table' : List AccountRow)
    → Spares rows table table'
    → IsHolding table rows ids
    → IsHolding table' rows ids
IsHolding_mono rows ids table table' s h = record {
  current = Current-mono rows table table' s.same h.current;
  unique = h.unique;
  queued = h.queued;
  ascending = h.ascending;
  exist = Exist-mono ids table table' s.kept h.exist;
}

Queued-cons :
    (r : AccountRow) (rows : List AccountRow) (ids : List ℤ)
    → Above r.id ids
    → IsQueued rows ids
    → IsQueued (r ∷ rows) ids
Queued-cons r rows [] a q = tt
Queued-cons r rows (id ∷ ids) a q = ((a.0, q.0), Queued-cons r rows ids a.1 q.1)

-- One more row, the first that was asked for.
pub IsHolding-lock :
    (table rows : List AccountRow) (r : AccountRow) (ids : List ℤ)
    → find_account r.id rows ≡ none
    → find_account r.id table ≡ some r
    → IsHolding table rows (r.id ∷ ids)
    → IsHolding table (r ∷ rows) ids
IsHolding-lock table rows r ids new found h = record {
  current = (found, h.current);
  unique = (new, h.unique);
  queued = Queued-cons r rows ids h.ascending.0 h.queued.1;
  ascending = h.ascending.1;
  exist = h.exist.1;
}

Current-found :
    (table rows : List AccountRow) (j : ℤ) {r : AccountRow}
    → Current table rows
    → find_account j rows ≡ some r
    → find_account j table ≡ some r
Current-found table [] j c f = cc
Current-found table (s ∷ rows) j {r} c f =
    ground (arith, eq_ℤ_iff s.id j, Current-found table rows j {r = r})

module _ ⦃dec : Decimal⦄ ⦃uuid : UuidCodec⦄ where
  -- What the map of the scanned rows gives stands in the table, and is held.
  pub held_row :
      (db : Database) (rows : List AccountRow) (j : ℤ) {x : Account dec}
      → IsUnique rows
      → Current db.accounts rows
      → lookup j (collect rows []) ≡ some x
      → ReadRow (λ id. has_account id rows ≡ true) db j x
  held_row db rows j u c e =
      let (r, f, same) =
        scanned j rows (find_account j rows) refl
          (sym (lookup-collect j rows [] u ∙ or_else-none _) ∙ e) in
      (r, Current-found db.accounts rows j c f, same, rw f refl)
