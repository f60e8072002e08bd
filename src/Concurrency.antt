-- ===== src/Concurrency.antt =====
-- Transfers at once: TransferService.execute and AccountRepository.LockForUpdate as the steps of
-- several transactions over one database. A session is one attempt of WithTx: it asks for the rows of
-- its two accounts in the order of its FOR UPDATE statement, waits for each until nobody holds it,
-- and then runs the rest of execute and the commit, whose writes touch no other account.
pub mod Locks
pub mod Rows
pub mod Ends
pub mod Invariant
pub mod Steps
pub mod Search
pub mod Waiting
pub mod Safety
pub mod Progress
pub mod Schedules
pub mod Bank
pub mod Serial
pub mod Once
use transfer_demo.Prelude.{ℕ, ◌<◌, ◌≡◌, Bool, false, some, List, [], ◌∷◌, ℤ, ◌==◌, if◌then◌else◌}
use transfer_demo.Decimal.{Decimal}
use transfer_demo.Uuid.{UuidCodec}
use transfer_demo.Domain.{Transfer}
use transfer_demo.Result.{Result}
use transfer_demo.Database.{AccountRow, Database, find_account, has_account}
use transfer_demo.Database.Statements.{order_by_id, among}
use transfer_demo.Action.{tx, Event, World, Action, ◌>>=◌}
use transfer_demo.Repository.Tx.{finish}
use transfer_demo.Repository.Accounts.{scan_accounts}
use transfer_demo.Service.Accounts.Effect.{Opened}
use transfer_demo.Service.Transfers.{TransferCmd, execute_locked}

-- `locking rows ids`: the rows that the session has locked, as it read them, and the ids that its
-- statement has yet to lock. A session that ends has committed or rolled back, and holds nothing.
pub data Phase : Type 0 where
  idle : Phase
  locking : List AccountRow → List ℤ → Phase
  ended : Phase

pub record System : Type 0 where
  pub db : Database
  pub phase : ℕ → Phase

abbrev pub update : (ℕ → Phase) → ℕ → Phase → ℕ → Phase
update f i p j = if j == i then p else f j

abbrev pub rows_of : Phase → List AccountRow
rows_of idle = []
rows_of (locking rows ids) = rows
rows_of ended = []

abbrev pub waiting_of : Phase → List ℤ
waiting_of idle = []
waiting_of (locking rows ids) = ids
waiting_of ended = []

-- Does the session hold the row lock of the account?
abbrev pub holds : Phase → ℤ → Bool
holds p id = has_account id (rows_of p)

abbrev pub ids_of : List AccountRow → List ℤ
ids_of [] = []
ids_of (r ∷ rows) = r.id ∷ ids_of rows

module _ ⦃dec : Decimal⦄ ⦃uuid : UuidCodec⦄ where
  -- What the statement is to lock, in its order.
  abbrev pub lock_order : TransferCmd dec → Database → List ℤ
  lock_order cmd db =
      ids_of (order_by_id (among (cmd.source_id ∷ cmd.destination_id ∷ []) db.accounts))

  -- The rest of runOnce once the rows are locked. The map that the rows are scanned into has no order.
  unfoldable pub run_locked : TransferCmd dec → List AccountRow → Action (Transfer dec)
  run_locked cmd rows w =
      let (r, w') = (do locked ← scan_accounts rows []; execute_locked tx cmd locked) w in
      finish r w.db w'

-- What a session does that holds locks: lock one more row, or run to its end, with the faults that
-- `events` says. `n` sessions take part, and the command of the session `i` is `cmd i`.
pub data Move ⦃dec : Decimal⦄ ⦃uuid : UuidCodec⦄ (cmd : ℕ → TransferCmd dec) (n : ℕ) (s : System)
    : System → Type 0 where
  lock :
      (i : ℕ) (rows : List AccountRow) (id : ℤ) (ids : List ℤ) (r : AccountRow)
      → i < n
      → s.phase i ≡ locking rows (id ∷ ids)
      → ((j : ℕ) → holds (s.phase j) id ≡ false)
      → find_account id s.db.accounts ≡ some r
      → Move cmd n s (record s { phase = update s.phase i (locking (r ∷ rows) ids) })
  run :
      (i : ℕ) (rows : List AccountRow) (events : List Event)
      → i < n
      → s.phase i ≡ locking rows []
      → Move cmd n s (record {
        db = (run_locked (cmd i) rows (record { db = s.db; events = events })).1.db;
        phase = update s.phase i ended;
      })

-- Besides, a session begins its statement, or ends early with nothing written (a replay, an error, a
-- client that went away), and other clients open accounts.
pub data Step ⦃dec : Decimal⦄ ⦃uuid : UuidCodec⦄ (cmd : ℕ → TransferCmd dec) (n : ℕ) (s : System)
    : System → Type 0 where
  begin :
      (i : ℕ)
      → i < n
      → s.phase i ≡ idle
      → Step cmd n s (record s { phase = update s.phase i (locking [] (lock_order (cmd i) s.db)) })
  move : {t : System} → Move cmd n s t → Step cmd n s t
  leave : (i : ℕ) → i < n → Step cmd n s (record s { phase = update s.phase i ended })
  open_account :
      (id balance : ℤ) (db : Database)
      → Opened id balance s.db db
      → Step cmd n s (record s { db = db })

abbrev pub initial : Database → System
initial db = record { db = db; phase = λ _. idle }

pub data Reach ⦃dec : Decimal⦄ ⦃uuid : UuidCodec⦄ (cmd : ℕ → TransferCmd dec) (n : ℕ)
    (db : Database) : System → Type 0 where
  start : Reach cmd n db (initial db)
  next : {s t : System} → Reach cmd n db s → Step cmd n s t → Reach cmd n db t
