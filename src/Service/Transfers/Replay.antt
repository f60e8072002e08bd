-- ===== src/Service/Transfers/Replay.antt =====
-- Commands under a key that is already stored: the fast path of Transfer.
use text.Mathlib.Text.{◌==◌}
use transfer_demo.Prelude.{ℕ, ◌≡◌, refl, ap, ◌∙◌, true, false, none, some, String, arith}
use transfer_demo.Decimal.{Decimal}
use transfer_demo.Uuid.{UuidCodec}
use transfer_demo.Domain.{
  GoError, Transfer, sentinel, idempotency_conflict, errors_is, duplicate_idempotency_key,
}
use transfer_demo.Result.{Result, ok, err}
use transfer_demo.Database.{Database, TransferRow, find_key}
use transfer_demo.Action.{Querier, tx, World, check}
use transfer_demo.Action.Quiet.{quietly, bind-eq-ok, round_trip-quietly, check-eq}
use transfer_demo.Repository.Transfers.{
  scan_transfer, select_by_key, found, find_by_idempotency_key,
}
use transfer_demo.Database.Statements.{select_transfer}
use transfer_demo.Repository.Tx.{roll_back, with_tx, is_retryable}
use transfer_demo.Repository.Tx.Quiet.{with_tx-eq-ok, with_tx-eq-err}
use transfer_demo.Service.Transfers.{
  TransferCmd, matches_cmd, replay, transfer_in_tx, lost_race, validate, transfer,
}

module _ ⦃dec : Decimal⦄ ⦃uuid : UuidCodec⦄ where
  select_by_key-quietly :
      (key : String) {u : ℕ} {r : TransferRow} (db : Database)
      → uuid.cast key ≡ some u
      → find_key u db.transfers ≡ some r
      → select_by_key key db ≡ (ok r, db)
  unfolding select_by_key select_transfer
  select_by_key-quietly key db c f = ground arith

  found-quietly :
      (q : Querier) (key : String) {u : ℕ} {r : TransferRow} (db : Database)
      → uuid.cast key ≡ some u
      → find_key u db.transfers ≡ some r
      → find_by_idempotency_key q key (quietly db) ≡ (ok (some (scan_transfer r)), quietly db)
  unfolding find_by_idempotency_key
  found-quietly q key {r} db c f =
      ap (λ (p : Result TransferRow × World). let (x, w) = p in (found x, w))
        (round_trip-quietly q (select_by_key key) (select_by_key-quietly key db c f))

  module _ (cmd : TransferCmd dec) (db : Database) (valid : validate cmd ≡ none) where
    transfer-eq :
        (r : Result (Transfer dec)) (w' : World)
        → with_tx (transfer_in_tx cmd) (quietly db) ≡ (r, w')
        → transfer cmd (quietly db) ≡ lost_race cmd r w'
    unfolding transfer
    transfer-eq r w' e =
        bind-eq-ok (check (validate cmd)) _ (check-eq (quietly db) valid)
        ∙ ap (λ (p : Result (Transfer dec) × World). lost_race cmd p.0 p.1) e

    -- What the transaction returned is what Transfer returns.
    pub transfer-eq-ok :
        {db₁ : Database} {t : Transfer dec}
        → transfer_in_tx cmd (quietly db) ≡ (ok t, quietly db₁)
        → transfer cmd (quietly db) ≡ (ok t, quietly db₁)
    unfolding lost_race
    transfer-eq-ok {db₁} {t} e =
        transfer-eq (ok t) (quietly db₁) (with_tx-eq-ok (transfer_in_tx cmd) e)

    pub transfer-eq-err :
        {db₁ : Database} {e : GoError}
        → transfer_in_tx cmd (quietly db) ≡ (err e, quietly db₁)
        → is_retryable e ≡ false
        → errors_is e duplicate_idempotency_key ≡ false
        → transfer cmd (quietly db) ≡ (err e, quietly (roll_back db db₁))
    unfolding lost_race
    transfer-eq-err {db₁} {e} h final once =
        transfer-eq (err e) (quietly (roll_back db db₁))
          (with_tx-eq-err (transfer_in_tx cmd) h final)
        ∙ rw once

  module _ (cmd : TransferCmd dec) (db : Database) (u : ℕ) (row : TransferRow)
      (valid : validate cmd ≡ none) (keyed : (cmd.idempotency_key == "") ≡ false)
      (casts : uuid.cast cmd.idempotency_key ≡ some u)
      (stored : find_key u db.transfers ≡ some row) where
    looked_up : transfer_in_tx cmd (quietly db) ≡ (replay cmd (scan_transfer row), quietly db)
    unfolding transfer_in_tx
    looked_up = rw keyed (bind-eq-ok _ _ (found-quietly tx cmd.idempotency_key db casts stored))

    replay_same :
        matches_cmd (scan_transfer row) cmd ≡ true
        → replay cmd (scan_transfer row) ≡ ok (scan_transfer row)
    unfolding replay
    replay_same same = rw same

    replay_other :
        matches_cmd (scan_transfer row) cmd ≡ false
        → replay cmd (scan_transfer row) ≡ err (sentinel idempotency_conflict)
    unfolding replay
    replay_other differs = rw differs

    -- If nobody interferes, a command that is valid, with a key under which a transfer with the
    -- same accounts and amount is stored, returns that transfer and leaves the database as it is.
    pub transfer-replay :
        matches_cmd (scan_transfer row) cmd ≡ true
        → transfer cmd (quietly db) ≡ (ok (scan_transfer row), quietly db)
    transfer-replay same =
        transfer-eq-ok cmd db valid
          (looked_up ∙ ap (λ (r : Result (Transfer dec)). (r, quietly db)) (replay_same same))

    -- If nobody interferes, a command that is valid, with a key under which a transfer with other
    -- accounts or another amount is stored, returns ErrIdempotencyConflict and leaves the database
    -- as it is.
    pub transfer-conflict :
        matches_cmd (scan_transfer row) cmd ≡ false
        → transfer cmd (quietly db) ≡ (err (sentinel idempotency_conflict), quietly db)
    unfolding is_retryable errors_is
    transfer-conflict differs =
        transfer-eq-err cmd db valid
          (looked_up ∙ ap (λ (r : Result (Transfer dec)). (r, quietly db)) (replay_other differs))
          refl refl
