-- ===== src/Audit/Soundness.antt =====
-- The invariant of the stored data: keys, balances, and the logs that account for them.
pub mod Moves
pub mod Openings
use transfer_demo.Prelude.{
  ℕ, ◌+◌, ◌<◌, ◌≡◌, refl, false, List, [], ◌∷◌, String, ℤ, pos, ◌+ℤ◌, ◌≤ℤ◌, arith, ◌==◌,
  if◌then◌else◌,
}
use transfer_demo.Domain.{direction_debit, direction_credit}
use transfer_demo.Database.{TransferRow, LedgerRow, Database, key_taken, empty}
use transfer_demo.Database.Accounts.{IsUnique}
use transfer_demo.Action.Orderly.{SeqLe}
use transfer_demo.Repository.Tx.{roll_back}
use transfer_demo.Audit.Sums.{
  balance_of, total_balance, total_deposits, deposits_of, total_entries, entries_of,
}

-- No idempotency key stands twice.
abbrev pub HasUniqueKeys : List TransferRow → Type 0
HasUniqueKeys [] = Unit
HasUniqueKeys (r ∷ rows) = (key_taken r.idempotency_key rows ≡ false) × HasUniqueKeys rows

-- The ids fall strictly from the newest row on, all below the bound.
abbrev pub IsDescending : ℕ → List TransferRow → Type 0
IsDescending bound [] = Unit
IsDescending bound (r ∷ rows) = (r.id < bound) × IsDescending r.id rows

-- Account, direction and amount of the ledger entries of one transfer.
abbrev pub sides_of : ℕ → List LedgerRow → List (ℤ × String × ℤ)
sides_of n [] = []
sides_of n (r ∷ rows) =
    let rest = sides_of n rows in
    if r.transfer_id == n then (r.account_id, r.direction, r.amount) ∷ rest else rest

-- Double entry: a transfer has one debit of its source and one credit of its destination, each of
-- its amount, and no other entry.
abbrev pub IsEntered : List LedgerRow → List TransferRow → Type 0
IsEntered ledger [] = Unit
IsEntered ledger (r ∷ rows) =
    (sides_of r.id ledger
      ≡ (r.destination_id, direction_credit, r.amount)
        ∷ (r.source_id, direction_debit, r.amount)
        ∷ [])
    × IsEntered ledger rows

pub record IsSound (db : Database) : Type 0 where
  pub unique : IsUnique db.accounts
  pub nonneg : (id : ℤ) → pos 0 ≤ℤ balance_of id db.accounts
  -- Of every account, the balance and the debits are the deposits and the credits.
  pub audited :
      (id : ℤ)
      → balance_of id db.accounts +ℤ entries_of direction_debit id db.ledger_entries
        ≡ deposits_of id db.deposits +ℤ entries_of direction_credit id db.ledger_entries
  -- SUM(balances) == SUM(deposits).
  pub funded : total_balance db.accounts ≡ total_deposits db.deposits
  -- The two totals of the ledger are equal.
  pub paired :
      total_entries direction_debit db.ledger_entries
      ≡ total_entries direction_credit db.ledger_entries
  pub keys : HasUniqueKeys db.transfers
  pub ids : IsDescending (db.transfers_seq + 1) db.transfers
  pub entered : IsEntered db.ledger_entries db.transfers
  pub ahead : (n : ℕ) → db.transfers_seq < n → sides_of n db.ledger_entries ≡ []

pub empty-IsSound : IsSound empty
empty-IsSound = record {
  unique = tt;
  nonneg = λ id. omega arith;
  audited = λ id. refl;
  funded = refl;
  paired = refl;
  keys = tt;
  ids = tt;
  entered = tt;
  ahead = λ n h. refl;
}

IsDescending-mono :
    (a b : ℕ) (rows : List TransferRow) → a < b + 1 → IsDescending a rows → IsDescending b rows
IsDescending-mono a b [] h d = tt
IsDescending-mono a b (r ∷ rows) h d = (omega arith, d.1)

-- A rollback leaves sound what was sound at BEGIN.
pub roll_back-IsSound : (db db' : Database) → SeqLe db db' → IsSound db → IsSound (roll_back db db')
roll_back-IsSound db db' le h = record {
  unique = h.unique;
  nonneg = h.nonneg;
  audited = h.audited;
  funded = h.funded;
  paired = h.paired;
  keys = h.keys;
  ids =
      IsDescending-mono (db.transfers_seq + 1) (db'.transfers_seq + 1) db.transfers (omega arith)
        h.ids;
  entered = h.entered;
  ahead = λ n lt. h.ahead n (omega arith);
}
