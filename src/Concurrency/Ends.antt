-- ===== src/Concurrency/Ends.antt =====
-- What a session that holds its rows leaves at its end: its transfer, or nothing but sequences.
use transfer_demo.Prelude.{
  ◌≡◌, refl, ◌⊎◌, inl, inr, true, false, Option, none, some, List, [], Bool,
}
use transfer_demo.Decimal.{Decimal, DecimalLaws, IsScaled}
use transfer_demo.Uuid.{UuidCodec}
use transfer_demo.Domain.{Transfer}
use transfer_demo.Result.{Result, ok, err}
use transfer_demo.Database.{Database, AccountRow, has_account}
use transfer_demo.Database.Accounts.{IsUnique}
use transfer_demo.Action.{tx, Fault, Event, World, Action, this_event, later_events, ◌>>=◌}
use transfer_demo.Action.Ensures.{Holds, Ensures, Ensures-bind}
use transfer_demo.Action.Orderly.{SeqLe, Orderly, Orderly-bind}
use transfer_demo.Repository.Tx.{roll_back, finish, commit_reply}
use transfer_demo.Repository.Accounts.{scan_accounts}
use transfer_demo.Repository.Accounts.Laws.{collect, Collected, scan_accounts-Ensures}
use transfer_demo.Service.Transfers.{TransferCmd, execute_locked}
use transfer_demo.Service.Transfers.Effect.{Moved, execute_locked-Ensures}
use transfer_demo.Service.Transfers.Orderly.{Orderly-scan_accounts, Orderly-execute_locked}
use transfer_demo.Concurrency.{run_locked}
use transfer_demo.Concurrency.Rows.{Current, held_row}

module _ {A : Type 0} (Q : A → Database → Type 0) where
  -- A transaction that has ended: rolled back, or carried out with the result of the function.
  abbrev pub Ended : Database → Database → Type 0
  Ended before db =
      ((after : Database) × SeqLe before after × (db ≡ roll_back before after)) ⊎ ((a : A) × Q a db)

  commit_reply-Ended :
      (o : Option Fault) (landed : Bool) (a : A) (before : Database) (w : World)
      → SeqLe before w.db
      → Q a w.db
      → Ended before (commit_reply o landed a before w).1.db
  unfolding commit_reply
  commit_reply-Ended none landed a before w le q = inr (a, q)
  commit_reply-Ended (some f) true a before w le q = inr (a, q)
  commit_reply-Ended (some f) false a before w le q = inl (w.db, le, refl)

  pub finish-Ended :
      (r : Result A) (before : Database) (w : World)
      → SeqLe before w.db
      → Holds Q r w.db
      → Ended before (finish r before w).1.db
  unfolding finish
  finish-Ended (err e) before w le h = inl (w.db, le, refl)
  finish-Ended (ok a) before w le h =
      commit_reply-Ended (this_event w.events).fault (this_event w.events).landed a before
        (record w { events = later_events w.events }) le h

module _ ⦃dec : Decimal⦄ ⦃uuid : UuidCodec⦄ (cmd : TransferCmd dec) (rows : List AccountRow) where
  -- The transfer has moved, between two accounts that the session holds.
  abbrev pub Landed : Database → Transfer dec → Database → Type 0
  Landed db t db' =
      Moved cmd db t db'
      × (has_account cmd.source_id rows ≡ true)
      × (has_account cmd.destination_id rows ≡ true)

  rest_of : Action (Transfer dec)
  rest_of = do locked ← scan_accounts rows []; execute_locked tx cmd locked

  rest_of-Ensures :
      (laws : DecimalLaws dec) (db : Database)
      → IsScaled dec cmd.amount
      → IsUnique rows
      → Current db.accounts rows
      → Ensures rest_of db (Landed db)
  unfolding rest_of
  rest_of-Ensures laws db scaled u c =
      Ensures-bind {P = Collected rows [] db} _ _ (scan_accounts-Ensures rows [] db)
        λ m db₁ (e, same).
          rw (e, same)
            (execute_locked-Ensures laws (λ id. has_account id rows ≡ true) cmd db (collect rows [])
              scaled (λ x f. held_row db rows cmd.source_id u c f)
              (λ x f. held_row db rows cmd.destination_id u c f))

  Orderly-rest_of : Orderly rest_of
  unfolding rest_of
  Orderly-rest_of =
      Orderly-bind _ _ (Orderly-scan_accounts rows []) (λ m. Orderly-execute_locked cmd m)

  pub run_locked-Ended :
      (laws : DecimalLaws dec) (db : Database) (events : List Event)
      → IsScaled dec cmd.amount
      → IsUnique rows
      → Current db.accounts rows
      → Ended (Landed db) db (run_locked cmd rows (record { db = db; events = events })).1.db
  unfolding run_locked rest_of
  run_locked-Ended laws db events scaled u c =
      let w : World = record { db = db; events = events } in
      finish-Ended (Landed db) (rest_of w).0 db (rest_of w).1 (Orderly-rest_of.at w).grown
        ((rest_of-Ensures laws db scaled u c).at events)
