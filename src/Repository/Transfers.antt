-- ===== src/Repository/Transfers.antt =====
-- internal/repository/transfer_repo.go.
pub mod Laws
pub mod Quiet
use mathlib.Core.Option
use transfer_demo.Prelude.{ℕ, Bool, true, false, Option, none, some, String, if◌then◌else◌}
use transfer_demo.Decimal.{Decimal}
use transfer_demo.Uuid.{UuidCodec}
use transfer_demo.Domain.{
  GoError, sentinel, wrap, errors_is, duplicate_idempotency_key, no_rows, Transfer, LedgerEntry,
}
use transfer_demo.Result.{Result, ok, err}
use transfer_demo.Database.{Database, TransferRow}
use transfer_demo.Database.Statements.{
  Statement, violation, select_transfer, insert_transfer, insert_ledger_entry as insert_entry,
}
use transfer_demo.Action.{Querier, World, Action, round_trip, map_error, wrapping}
use transfer_demo.Repository.Errors.{is_unique_violation}

unfoldable pub insert_error : GoError → GoError
insert_error e =
    if is_unique_violation e "uq_transfers_idempotency_key"
    then sentinel duplicate_idempotency_key
    else wrap "insert transfer" e

-- A text that is no UUID stops the statement.
unfoldable pub with_cast : {A B : Type 0} → Option A → (A → Statement B) → Statement B
with_cast none statement db = (violation "22P02" "", db)
with_cast (some a) statement db = statement a db

-- `$1::uuid` of a key that may be NULL.
abbrev pub cast_key : UuidCodec → Option String → Option (Option ℕ)
cast_key uuid none = some none
cast_key uuid (some key) = Option.map some (uuid.cast key)

module _ ⦃dec : Decimal⦄ where
  unfoldable pub insert_ledger_entry : Querier → LedgerEntry dec → Action Unit
  insert_ledger_entry q e = wrapping "insert ledger entry" (
      round_trip q (
        insert_entry e.transfer_id e.account_id e.direction (dec.to_numeric e.amount)
          (dec.to_numeric e.balance_after)))

module _ ⦃dec : Decimal⦄ ⦃uuid : UuidCodec⦄ where
  abbrev pub scan_transfer : TransferRow → Transfer dec
  scan_transfer r = record {
    id = r.id;
    idempotency_key = Option.map uuid.text r.idempotency_key;
    source_id = r.source_id;
    destination_id = r.destination_id;
    amount = dec.of_numeric r.amount;
    status = r.status;
    created_at = r.created_at;
  }

  unfoldable pub select_by_key : String → Statement TransferRow
  unfolding with_cast
  select_by_key key = with_cast (uuid.cast key) select_transfer

  -- `(domain.Transfer{}, false, nil)` is `none`.
  abbrev pub found : Result TransferRow → Result (Option (Transfer dec))
  found (ok r) = ok (some (scan_transfer r))
  found (err e) = if errors_is e no_rows then ok none else err (wrap "find transfer" e)

  unfoldable pub find_by_idempotency_key : Querier → String → Action (Option (Transfer dec))
  unfolding select_by_key
  find_by_idempotency_key q key w =
      let (r, w') = round_trip q (select_by_key key) w in (found r, w')

  unfoldable pub insert_row : Transfer dec → Statement ℕ
  unfolding with_cast
  insert_row t =
      with_cast (cast_key uuid t.idempotency_key)
        (λ key. insert_transfer key t.source_id t.destination_id (dec.to_numeric t.amount) t.status)

  unfoldable pub insert : Querier → Transfer dec → Action ℕ
  unfolding insert_row
  insert q t = map_error insert_error (round_trip q (insert_row t))
