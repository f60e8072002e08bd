-- ===== src/Service/Transfers/Decision.antt =====
-- What Transfer is to answer when nobody interferes, as a function of the command and the database.
pub mod Agreement
pub mod Memory
use transfer_demo.Prelude.{
  ℕ, ◌^◌, ◌-◌, ◌≡◌, refl, ◌∙◌, ap, Bool, true, false, Option, none, some, ℤ, pos, ◌+ℤ◌, ◌≤ℤ◌, ltb_ℤ,
  leb_ℤ, String, if◌then◌else◌, arith, int_laws,
}
use text.Mathlib.Text.{◌==◌}
use transfer_demo.Decimal.{Decimal, DecimalLaws}
use transfer_demo.Uuid.{UuidCodec}
use transfer_demo.Domain.{
  GoError, sentinel, wrap, pg_error, account_not_found_error, insufficient_funds,
  idempotency_conflict, Transfer, errors_is,
}
use transfer_demo.Result.{Result, ok, err}
use transfer_demo.Database.{Database, AccountRow, TransferRow, find_account, find_key, key_taken}
use transfer_demo.Database.Accounts.{IsUnique}
use transfer_demo.Database.Progress.{Fits}
use transfer_demo.Action.{World, check, tx}
use transfer_demo.Database.Statements.{violation}
use transfer_demo.Action.Quiet.{quietly, check-eq-err, bind-eq-err, round_trip-quietly}
use transfer_demo.Repository.Transfers.{
  find_by_idempotency_key, select_by_key, with_cast, found, cast_key, scan_transfer,
}
use transfer_demo.Repository.Tx.{is_retryable}
use transfer_demo.Service.Transfers.Validation.{validate_iff, IsAcceptable}
use transfer_demo.Service.Transfers.Progress.{
  keyed_transfer, IsExecutable, receipt, transfer-succeeds,
}
use transfer_demo.Service.Transfers.Replay.{transfer-eq-err, transfer-replay, transfer-conflict}
use transfer_demo.Service.Transfers.{TransferCmd, optional_key, validate, matches_cmd, transfer}
use transfer_demo.Service.Transfers.Effect.{moved}
use transfer_demo.Service.Transfers.Refusals.{
  transfer-no_source, transfer-no_destination, transfer-short,
}
use transfer_demo.Service.Transfers.Overflow.{overflow, transfer-overflow}

-- A key that the server does not read as a UUID.
abbrev pub unreadable_key : GoError
unreadable_key =
    wrap "find transfer" (pg_error (record { code = "22P02"; constraint_name = ""; message = "" }))

module _ ⦃dec : Decimal⦄ ⦃uuid : UuidCodec⦄ where
  abbrev pub Decision : Type 0
  Decision = Result (Transfer dec) × Database

  module _ (cmd : TransferCmd dec) (db : Database) where
    abbrev pub pay_if : Option ℕ → AccountRow → AccountRow → Bool → Bool → Decision
    pay_if key source destination true beyond = (err (sentinel insufficient_funds), db)
    pay_if key source destination false true = (err overflow, db)
    pay_if key source destination false false = (
      ok (receipt cmd db),
      moved key cmd.source_id cmd.destination_id (dec.to_numeric cmd.amount) source.balance
          destination.balance db,
    )

    -- The source must cover the amount, and the destination hold it.
    abbrev pub pay : Option ℕ → AccountRow → AccountRow → Decision
    pay key source destination =
        pay_if key source destination (ltb_ℤ source.balance (dec.to_numeric cmd.amount))
          (leb_ℤ (pos (10 ^ 38)) (destination.balance +ℤ dec.to_numeric cmd.amount))

    abbrev pub between : Option ℕ → Option AccountRow → Option AccountRow → Decision
    between key none destination = (err (account_not_found_error cmd.source_id), db)
    between key (some source) none = (err (account_not_found_error cmd.destination_id), db)
    between key (some source) (some destination) = pay key source destination

    abbrev pub execution : Option ℕ → Decision
    execution key =
        between key (find_account cmd.source_id db.accounts)
          (find_account cmd.destination_id db.accounts)

    abbrev pub repetition : TransferRow → Bool → Decision
    repetition row true = (ok (scan_transfer row), db)
    repetition row false = (err (sentinel idempotency_conflict), db)

    -- By the transfer that stands under the key.
    abbrev pub under : ℕ → Option TransferRow → Decision
    under u none = execution (some u)
    under u (some row) = repetition row (matches_cmd (scan_transfer row) cmd)

    abbrev pub keyed : Option ℕ → Decision
    keyed none = (err unreadable_key, db)
    keyed (some u) = under u (find_key u db.transfers)

    abbrev pub admitted : Bool → Decision
    admitted true = execution none
    admitted false = keyed (uuid.cast cmd.idempotency_key)

    abbrev pub judged : Option GoError → Decision
    judged (some e) = (err e, db)
    judged none = admitted (cmd.idempotency_key == "")

    unfoldable pub decision : Decision
    decision = judged (validate cmd)
