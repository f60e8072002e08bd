-- ===== src/Service/Transfers/Refusals.antt =====
-- Commands that cannot be carried out, when nobody interferes: the early returns of execute.
use mathlib.Core.Option
use text.Mathlib.Text.{◌==◌}
use transfer_demo.Prelude.{
  ℕ, ◌≡◌, refl, ◌∙◌, Bool, true, false, Option, none, some, [], ◌∷◌, ℤ, ltb_ℤ, if◌then◌else◌,
}
use transfer_demo.Decimal.{Decimal, DecimalLaws}
use transfer_demo.Uuid.{UuidCodec}
use transfer_demo.Domain.{
  GoError, sentinel, account_not_found_error, insufficient_funds, Transfer, errors_is,
  duplicate_idempotency_key,
}
use transfer_demo.Result.{Result, err}
use transfer_demo.Database.{Database, AccountRow, find_account, key_taken, find_key}
use transfer_demo.Database.Accounts.{IsUnique}
use transfer_demo.Action.{tx, World}
use transfer_demo.Action.Quiet.{
  quietly, bind-eq-ok, bind-eq-err, or_fail-eq, or_fail-eq-err, check-eq-err,
}
use transfer_demo.Repository.Accounts.Laws.{lookup-selected}
use transfer_demo.Repository.Accounts.Quiet.{lock_for_update-eq}
use transfer_demo.Repository.Transfers.{cast_key}
use transfer_demo.Repository.Transfers.Quiet.{find_free}
use transfer_demo.Repository.Tx.{is_retryable}
use transfer_demo.Service.Transfers.{
  TransferCmd, optional_key, execute, execute_locked, after_lookup, transfer_in_tx, transfer,
}
use transfer_demo.Service.Transfers.Effect.{member_first, member_second, less_than-balance}
use transfer_demo.Service.Transfers.Settled.{looked_up}
use transfer_demo.Service.Transfers.Validation.{IsAcceptable, validate_iff}
use transfer_demo.Service.Transfers.Progress.{keyed_transfer, unkeyed_transfer, not_some}
use transfer_demo.Service.Transfers.Replay.{transfer-eq-err}

module _ ⦃dec : Decimal⦄ ⦃uuid : UuidCodec⦄ (laws : DecimalLaws dec) (cmd : TransferCmd dec)
    (db : Database) (acceptable : IsAcceptable cmd) (unique : IsUnique db.accounts) (key : Option ℕ)
    (casts : cast_key uuid (optional_key cmd.idempotency_key) ≡ some key)
    (free : key_taken key db.transfers ≡ false) where
  free_under :
      (o : Option ℕ)
      → uuid.cast cmd.idempotency_key ≡ o
      → Option.map some o ≡ some key
      → (u : ℕ) × (uuid.cast cmd.idempotency_key ≡ some u) × (find_key u db.transfers ≡ none)
  free_under none c e = cc
  free_under (some u) c e =
      let same : key ≡ some u = cc in (u, c, not_some (find_key u db.transfers) (rw same at free))

  pub executed :
      (b : Bool)
      → (cmd.idempotency_key == "") ≡ b
      → {p : Result (Transfer dec) × World} → execute tx cmd (quietly db) ≡ p
      → transfer_in_tx cmd (quietly db) ≡ p
  unfolding after_lookup
  executed true e run = unkeyed_transfer cmd (quietly db) e ∙ run
  executed false e run =
      let (u, c, f) = free_under (uuid.cast cmd.idempotency_key) refl (rw e at casts) in
      keyed_transfer cmd (quietly db) e
      ∙ bind-eq-ok _ _ (find_free tx cmd.idempotency_key db c f)
      ∙ run

  fails :
      (e : GoError)
      → is_retryable e ≡ false
      → errors_is e duplicate_idempotency_key ≡ false
      → execute tx cmd (quietly db) ≡ (err e, quietly db)
      → transfer cmd (quietly db) ≡ (err e, quietly db)
  fails e final once run =
      transfer-eq-err cmd db ((validate_iff laws cmd).1 acceptable)
        (executed (cmd.idempotency_key == "") refl run) final once

  -- If nobody interferes, an acceptable command from an account that does not exist, under no key or
  -- a free one, returns the AccountNotFoundError with the source's id and leaves the database as it
  -- is. The account ids are unique.
  pub transfer-no_source :
      find_account cmd.source_id db.accounts ≡ none
      → transfer cmd (quietly db) ≡ (err (account_not_found_error cmd.source_id), quietly db)
  unfolding execute execute_locked is_retryable errors_is
  transfer-no_source missing =
      let s : ℤ = cmd.source_id in
      let d : ℤ = cmd.destination_id in
      fails (account_not_found_error s) refl refl (
        bind-eq-ok _ _ (lock_for_update-eq (s ∷ d ∷ []) db)
        ∙ bind-eq-err _ _ (
            or_fail-eq-err _ _ (
              lookup-selected (s ∷ d ∷ []) s db.accounts unique
              ∙ rw (member_first s d, missing) refl)))

  module _ (source : AccountRow)
      (source_found : find_account cmd.source_id db.accounts ≡ some source) where
    -- If nobody interferes, an acceptable command from an account that exists to one that does not,
    -- under no key or a free one, returns the AccountNotFoundError with the destination's id and
    -- leaves the database as it is. The account ids are unique.
    pub transfer-no_destination :
        find_account cmd.destination_id db.accounts ≡ none
        → transfer cmd (quietly db) ≡ (err (account_not_found_error cmd.destination_id), quietly db)
    unfolding execute execute_locked is_retryable errors_is
    transfer-no_destination missing =
        let s : ℤ = cmd.source_id in
        let d : ℤ = cmd.destination_id in
        fails (account_not_found_error d) refl refl (
          bind-eq-ok _ _ (lock_for_update-eq (s ∷ d ∷ []) db)
          ∙ bind-eq-ok _ _ (
              or_fail-eq _ _
                (looked_up (s ∷ d ∷ []) s db.accounts unique (member_first s d) source_found))
          ∙ bind-eq-err _ _ (
              or_fail-eq-err _ _ (
                lookup-selected (s ∷ d ∷ []) d db.accounts unique
                ∙ rw (member_second s d, missing) refl)))

    refused_check :
        {b : Bool}
        → b ≡ true
        → (if b then some (sentinel insufficient_funds) else none)
          ≡ some (sentinel insufficient_funds)
    refused_check e = rw e refl

    -- If nobody interferes, an acceptable command between two accounts that exist, of an amount above
    -- the source's balance, under no key or a free one, returns ErrInsufficientFunds and leaves the
    -- database as it is. The account ids are unique.
    pub transfer-short :
        (destination : AccountRow)
        → find_account cmd.destination_id db.accounts ≡ some destination
        → ltb_ℤ source.balance (dec.to_numeric cmd.amount) ≡ true
        → transfer cmd (quietly db) ≡ (err (sentinel insufficient_funds), quietly db)
    unfolding execute execute_locked is_retryable errors_is
    transfer-short destination destination_found short =
        let s : ℤ = cmd.source_id in
        let d : ℤ = cmd.destination_id in
        fails (sentinel insufficient_funds) refl refl (
          bind-eq-ok _ _ (lock_for_update-eq (s ∷ d ∷ []) db)
          ∙ bind-eq-ok _ _ (
              or_fail-eq _ _
                (looked_up (s ∷ d ∷ []) s db.accounts unique (member_first s d) source_found))
          ∙ bind-eq-ok _ _ (
              or_fail-eq _ _
                (looked_up (s ∷ d ∷ []) d db.accounts unique (member_second s d) destination_found))
          ∙ bind-eq-err _ _ (
              check-eq-err _ (
                refused_check (
                  less_than-balance laws source.balance cmd.amount acceptable.storable.0 ∙ short))))
