-- ===== src/Repository/Transfers/Quiet.antt =====
-- The transfer queries when nobody interferes.
use transfer_demo.Prelude.{
  ℕ, ◌+◌, ◌≡◌, ap, true, false, Option, none, some, String, pos, eq_ℤ, arith,
}
use transfer_demo.Decimal.{Decimal}
use transfer_demo.Uuid.{UuidCodec}
use transfer_demo.Domain.{wrap, sentinel, no_rows, errors_is, Transfer, LedgerEntry}
use transfer_demo.Result.{Result, ok, err, done}
use transfer_demo.Database.{Database, TransferRow, has_account, has_transfer, key_taken, find_key}
use transfer_demo.Database.Statements.{select_transfer}
use transfer_demo.Database.Effects.{with_transfer, with_ledger_entry}
use transfer_demo.Database.Progress.{
  Fits, insert_transfer-eq, insert_ledger_entry-eq as insert_entry-eq,
}
use transfer_demo.Action.{Querier, tx, World}
use transfer_demo.Action.Quiet.{quietly, round_trip-quietly, map_error-eq}
use transfer_demo.Repository.Transfers.{
  with_cast, cast_key, select_by_key, found, find_by_idempotency_key, insert_row, insert,
  insert_error, insert_ledger_entry,
}

module _ ⦃dec : Decimal⦄ where
  pub insert_ledger_entry-eq :
      (e : LedgerEntry dec) (db : Database)
      → Fits (pos 1) (dec.to_numeric e.amount)
      → Fits (pos 0) (dec.to_numeric e.balance_after)
      → has_transfer e.transfer_id db.transfers ≡ true
      → has_account e.account_id db.accounts ≡ true
      → insert_ledger_entry tx e (quietly db) ≡ (
        done,
        quietly (
            with_ledger_entry e.transfer_id e.account_id e.direction
              (dec.to_numeric e.amount)
              (dec.to_numeric e.balance_after)
              db),
      )
  unfolding insert_ledger_entry
  insert_ledger_entry-eq e db h k t f = map_error-eq (wrap "insert ledger entry") _ (
      round_trip-quietly tx _ (
        insert_entry-eq e.transfer_id e.account_id e.direction (dec.to_numeric e.amount)
          (dec.to_numeric e.balance_after) db h k t f))

module _ ⦃dec : Decimal⦄ ⦃uuid : UuidCodec⦄ where
  insert_row-eq :
      (t : Transfer dec) (key : Option ℕ) (db : Database)
      → cast_key uuid t.idempotency_key ≡ some key
      → Fits (pos 1) (dec.to_numeric t.amount)
      → eq_ℤ t.source_id t.destination_id ≡ false
      → key_taken key db.transfers ≡ false
      → has_account t.source_id db.accounts ≡ true
      → has_account t.destination_id db.accounts ≡ true
      → insert_row t db ≡ (
        ok (db.transfers_seq + 1),
        with_transfer key t.source_id t.destination_id (dec.to_numeric t.amount) t.status db,
      )
  unfolding insert_row with_cast
  insert_row-eq t key db c h differ free fs fd = rw c (
      insert_transfer-eq key t.source_id t.destination_id (dec.to_numeric t.amount) t.status db h
        differ free fs fd)

  pub insert-eq :
      (t : Transfer dec) (key : Option ℕ) (db : Database)
      → cast_key uuid t.idempotency_key ≡ some key
      → Fits (pos 1) (dec.to_numeric t.amount)
      → eq_ℤ t.source_id t.destination_id ≡ false
      → key_taken key db.transfers ≡ false
      → has_account t.source_id db.accounts ≡ true
      → has_account t.destination_id db.accounts ≡ true
      → insert tx t (quietly db) ≡ (
        ok (db.transfers_seq + 1),
        quietly
            (with_transfer key t.source_id t.destination_id (dec.to_numeric t.amount) t.status db),
      )
  unfolding insert
  insert-eq t key db c h differ free fs fd =
      map_error-eq insert_error _
        (round_trip-quietly tx _ (insert_row-eq t key db c h differ free fs fd))

  select_free :
      (key : String) {u : ℕ} (db : Database)
      → uuid.cast key ≡ some u
      → find_key u db.transfers ≡ none
      → select_by_key key db ≡ (err (sentinel no_rows), db)
  unfolding select_by_key select_transfer
  select_free key db c f = ground arith

  -- No transfer stands under the key.
  pub find_free :
      (q : Querier) (key : String) {u : ℕ} (db : Database)
      → uuid.cast key ≡ some u
      → find_key u db.transfers ≡ none
      → find_by_idempotency_key q key (quietly db) ≡ (ok none, quietly db)
  unfolding find_by_idempotency_key errors_is
  find_free q key db c f =
      ap (λ (p : Result TransferRow × World). let (x, w) = p in (found x, w))
        (round_trip-quietly q (select_by_key key) (select_free key db c f))
