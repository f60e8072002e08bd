-- ===== src/Service/Transfers/Overflow.antt =====
-- A destination that cannot hold the amount, when nobody interferes: the NUMERIC(38, 18) of balance.
use text.Mathlib.Text.{◌==◌}
use transfer_demo.Prelude.{
  ℕ, ◌^◌, ◌≡◌, refl, ◌∙◌, true, false, Option, some, ℤ, pos, ◌+ℤ◌, ◌-ℤ◌, ◌≤ℤ◌,
}
use transfer_demo.Decimal.{Decimal, DecimalLaws, IsScaled}
use transfer_demo.Uuid.{UuidCodec}
use transfer_demo.Domain.{GoError, pg_error, wrap, errors_is}
use transfer_demo.Result.{err}
use transfer_demo.Database.{Database, AccountRow, find_account, has_account, key_taken}
use transfer_demo.Database.Accounts.{IsUnique}
use transfer_demo.Database.Effects.{with_new_balance}
use transfer_demo.Database.Progress.{Fits, update_balance-overflow}
use transfer_demo.Action.{tx}
use transfer_demo.Action.Quiet.{quietly, bind-eq-ok, bind-eq-err, round_trip-quietly, map_error-eq}
use transfer_demo.Repository.Accounts.{update_balance, update_error}
use transfer_demo.Repository.Accounts.Quiet.{update_balance-eq}
use transfer_demo.Repository.Errors.{pg_error_code}
use transfer_demo.Repository.Transfers.{cast_key}
use transfer_demo.Repository.Tx.{is_retryable}
use transfer_demo.Service.Transfers.{TransferCmd, optional_key, execute, transfer}
use transfer_demo.Service.Transfers.Effect.{debited, credited}
use transfer_demo.Service.Transfers.Settled.{execute-settle}
use transfer_demo.Service.Transfers.Validation.{IsAcceptable, validate_iff}
use transfer_demo.Service.Transfers.Progress.{left_over, present, has_account-set_balance}
use transfer_demo.Service.Transfers.Refusals.{executed}
use transfer_demo.Service.Transfers.Replay.{transfer-eq-err}

-- What UpdateBalance returns for a balance that the column cannot hold.
abbrev pub overflow : GoError
overflow =
    wrap "update balance" (pg_error (record { code = "22003"; constraint_name = ""; message = "" }))

module _ ⦃dec : Decimal⦄ where
  repository_overflow :
      (id : ℤ) (v : dec.Value) (db : Database)
      → has_account id db.accounts ≡ true
      → pos (10 ^ 38) ≤ℤ dec.to_numeric v
      → update_balance tx id v (quietly db) ≡ (err overflow, quietly db)
  unfolding update_balance update_error pg_error_code
  repository_overflow id v db known beyond =
      map_error-eq update_error _
        (round_trip-quietly tx _ (update_balance-overflow id (dec.to_numeric v) db known beyond))

module _ ⦃dec : Decimal⦄ ⦃uuid : UuidCodec⦄ (laws : DecimalLaws dec) (cmd : TransferCmd dec)
    (db : Database) (acceptable : IsAcceptable cmd) (unique : IsUnique db.accounts) (key : Option ℕ)
    (casts : cast_key uuid (optional_key cmd.idempotency_key) ≡ some key)
    (free : key_taken key db.transfers ≡ false) (source destination : AccountRow)
    (source_found : find_account cmd.source_id db.accounts ≡ some source)
    (destination_found : find_account cmd.destination_id db.accounts ≡ some destination)
    (source_fits : Fits (pos 0) source.balance)
    (covered : dec.to_numeric cmd.amount ≤ℤ source.balance)
    (beyond : pos (10 ^ 38) ≤ℤ destination.balance +ℤ dec.to_numeric cmd.amount) where
  -- The first update writes, the second is refused.
  execute-overflow : execute tx cmd (quietly db) ≡ (
    err overflow,
    quietly (with_new_balance cmd.source_id (source.balance -ℤ dec.to_numeric cmd.amount) db),
  )
  execute-overflow =
      let s : ℤ = cmd.source_id in
      let d : ℤ = cmd.destination_id in
      let a : ℤ = dec.to_numeric cmd.amount in
      let scaled : IsScaled dec cmd.amount = acceptable.storable.0 in
      let amount_fits : Fits (pos 1) a = (acceptable.storable.1, acceptable.storable.2) in
      let left = debited laws source.balance cmd.amount scaled in
      let right = credited laws destination.balance cmd.amount scaled in
      let left_fits : Fits (pos 0)
          (dec.to_numeric (dec.sub (dec.of_numeric source.balance) cmd.amount)) =
        rw left (left_over source.balance a source_fits amount_fits covered) in
      let too_much : pos (10 ^ 38)
          ≤ℤ dec.to_numeric (dec.add (dec.of_numeric destination.balance) cmd.amount) =
        rw right beyond in
      let x : dec.Value = dec.sub (dec.of_numeric source.balance) cmd.amount in
      let y : dec.Value = dec.add (dec.of_numeric destination.balance) cmd.amount in
      let has_s : has_account s db.accounts ≡ true = present s db.accounts source_found in
      let has_d : has_account d db.accounts ≡ true = present d db.accounts destination_found in
      let has_d₁ = has_account-set_balance s d (dec.to_numeric x) db.now db.accounts has_d in
      execute-settle laws cmd db scaled unique source_found destination_found covered
      ∙ bind-eq-ok _ _ (update_balance-eq s x db has_s left_fits)
      ∙ bind-eq-err _ _
          (repository_overflow d y (with_new_balance s (dec.to_numeric x) db) has_d₁ too_much)
      ∙ rw left refl

  -- If nobody interferes, an acceptable command between two accounts that exist, of an amount that
  -- the source covers and that takes the destination's balance to 10^20 or beyond, under no key or a
  -- free one, returns the server's overflow error and leaves the database as it is: the debit of the
  -- source is rolled back. The account ids are unique.
  pub transfer-overflow : transfer cmd (quietly db) ≡ (err overflow, quietly db)
  unfolding is_retryable errors_is
  transfer-overflow =
      transfer-eq-err cmd db ((validate_iff laws cmd).1 acceptable)
        (executed laws cmd db acceptable unique key casts free (cmd.idempotency_key == "") refl
          execute-overflow)
        refl refl
