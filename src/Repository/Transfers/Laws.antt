-- ===== src/Repository/Transfers/Laws.antt =====
-- What the transfer queries have done when they return no error.
use mathlib.Core.Option
use transfer_demo.Prelude.{
  List, ℕ, ◌+◌, ◌≡◌, refl, false, Option, none, some, String, pos, eq_ℤ, ◌≤ℤ◌,
}
use transfer_demo.Decimal.{Decimal}
use transfer_demo.Uuid.{UuidCodec}
use transfer_demo.Domain.{errors_is, Transfer, LedgerEntry}
use transfer_demo.Result.{ok}
use transfer_demo.Database.{Database, TransferRow, key_taken, find_key}
use transfer_demo.Database.Statements.{Statement, or_no_rows, select_transfer}
use transfer_demo.Database.Effects.{
  with_transfer, with_ledger_entry, insert_transfer-ok, insert_ledger_entry-ok,
}
use transfer_demo.Action.{
  Fault, server, driver, Event, this_event, later_events, pool, tx, World, attempt, round_trip,
}
use transfer_demo.Action.Ensures.{Holds, Ensures, Ensures-map_error, Ensures-round_trip}
use transfer_demo.Repository.Transfers.{
  with_cast, cast_key, scan_transfer, select_by_key, found, find_by_idempotency_key, insert_row,
  insert, insert_ledger_entry,
}

with_cast-ok :
    {A B : Type 0} (o : Option A) (statement : A → Statement B) (db : Database) {b : B}
    {db' : Database}
    → with_cast o statement db ≡ (ok b, db')
    → (a : A) × (o ≡ some a) × (statement a db ≡ (ok b, db'))
unfolding with_cast
with_cast-ok none statement db h = cc
with_cast-ok (some a) statement db h = (a, refl, h)

module _ ⦃dec : Decimal⦄ ⦃uuid : UuidCodec⦄ where
  -- A transfer that was inserted is new, has a fresh id, a free key and two accounts.
  pub record Inserted (t : Transfer dec) (db : Database) (n : ℕ) (db' : Database) : Type 0 where
    pub key : Option ℕ
    pub key_casts : cast_key uuid t.idempotency_key ≡ some key
    pub fresh : n ≡ db.transfers_seq + 1
    pub differ : eq_ℤ t.source_id t.destination_id ≡ false
    pub positive : pos 1 ≤ℤ dec.to_numeric t.amount
    pub free : key_taken key db.transfers ≡ false
    pub written :
        db' ≡ with_transfer key t.source_id t.destination_id (dec.to_numeric t.amount) t.status db

  insert_row-ok :
      (t : Transfer dec) (db : Database) (n : ℕ) (db' : Database)
      → insert_row t db ≡ (ok n, db')
      → Inserted t db n db'
  unfolding insert_row
  insert_row-ok t db n db' h =
      let (key, casts, e) = with_cast-ok (cast_key uuid t.idempotency_key) _ db h in
      let facts =
        insert_transfer-ok key t.source_id t.destination_id (dec.to_numeric t.amount) t.status db
          e in
      record {
        key = key;
        key_casts = casts;
        fresh = facts.0;
        differ = facts.1;
        positive = facts.2;
        free = facts.3;
        written = facts.4;
      }

  pub insert-Ensures : (t : Transfer dec) (db : Database) → Ensures (insert tx t) db (Inserted t db)
  unfolding insert
  insert-Ensures t db = Ensures-map_error _ _ (Ensures-round_trip _ (insert_row-ok t db))

  pub insert_ledger_entry-Ensures :
      (e : LedgerEntry dec) (db : Database)
      → Ensures (insert_ledger_entry tx e) db (λ _ db'.
        db'
        ≡ with_ledger_entry e.transfer_id e.account_id e.direction
            (dec.to_numeric e.amount)
            (dec.to_numeric e.balance_after)
            db)
  unfolding insert_ledger_entry
  insert_ledger_entry-Ensures e db = Ensures-map_error _ _ (
      Ensures-round_trip _ (λ u db' h.
        insert_ledger_entry-ok e.transfer_id e.account_id e.direction (dec.to_numeric e.amount)
          (dec.to_numeric e.balance_after) db h))

  -- The lookup by key reads the row that holds the key, and writes nothing.
  abbrev pub LookedUp : String → Database → Option (Transfer dec) → Database → Type 0
  LookedUp key db o db' =
      (u : ℕ) × (uuid.cast key ≡ some u)
      × (o ≡ Option.map scan_transfer (find_key u db.transfers))
      × (db' ≡ db)

  found-LookedUp :
      (key : String) (u : ℕ) (row : Option TransferRow) (db : Database)
      → uuid.cast key ≡ some u
      → find_key u db.transfers ≡ row
      → Holds (LookedUp key db) (found (or_no_rows row)) db
  unfolding or_no_rows errors_is
  found-LookedUp key u none db e f = (u, e, rw f, refl)
  found-LookedUp key u (some r) db e f = (u, e, rw f, refl)

  select_by_key-LookedUp :
      (key : String) (o : Option ℕ) (db : Database)
      → uuid.cast key ≡ o
      → let (r, db') = with_cast o select_transfer db in Holds (LookedUp key db) (found r) db'
  unfolding with_cast select_transfer errors_is
  select_by_key-LookedUp key none db e = tt
  select_by_key-LookedUp key (some u) db e =
      found-LookedUp key u (find_key u db.transfers) db e refl

  find_attempt :
      (key : String) (o : Option Fault) (events : List Event) (db : Database)
      → let (r, w') = attempt o (select_by_key key) events db in
        Holds (LookedUp key db) (found r) w'.db
  unfolding attempt select_by_key errors_is
  find_attempt key none events db = select_by_key-LookedUp key (uuid.cast key) db refl
  find_attempt key (some (server e)) events db = tt
  find_attempt key (some (driver m)) events db = tt

  pub find-Ensures :
      (key : String) (db : Database) → Ensures (find_by_idempotency_key tx key) db (LookedUp key db)
  unfolding find_by_idempotency_key round_trip
  find-Ensures key db = record {
    at = λ events. find_attempt key (this_event events).fault (later_events events) db;
  }

  select_by_key_same :
      (key : String) (o : Option ℕ) (db : Database) → (with_cast o select_transfer db).1 ≡ db
  unfolding with_cast select_transfer
  select_by_key_same key none db = refl
  select_by_key_same key (some u) db = refl

  find_attempt_same :
      (key : String) (o : Option Fault) (events : List Event) (db : Database)
      → (attempt o (select_by_key key) events db).1.db ≡ db
  unfolding attempt select_by_key
  find_attempt_same key none events db = select_by_key_same key (uuid.cast key) db
  find_attempt_same key (some f) events db = refl

  -- On the pool the lookup sees what others have committed by then.
  pub find_on_pool :
      (key : String) (w : World)
      → let db₁ = (this_event w.events).others w.db in
        let (o, w') = find_by_idempotency_key pool key w in
        Holds (LookedUp key db₁) o w'.db × (w'.db ≡ db₁)
  unfolding find_by_idempotency_key round_trip
  find_on_pool key w =
      let e : Event = this_event w.events in
      (
        find_attempt key e.fault (later_events w.events) (e.others w.db),
        find_attempt_same key e.fault (later_events w.events) (e.others w.db),
      )
