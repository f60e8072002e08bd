-- ===== src/Service/Transfers/Retry.antt =====
-- A client that repeats a call of Transfer.
use text.Mathlib.Text.{◌==◌}
use transfer_demo.Prelude.{
  ℕ, ◌+◌, ◌∷◌, ◌≡◌, refl, ap, ◌∙◌, true, false, some, ℤ, eq_ℤ, eq_ℤ_refl, arith,
}
use transfer_demo.Decimal.{Decimal, DecimalLaws, IsScaled}
use transfer_demo.Uuid.{UuidCodec}
use transfer_demo.Domain.{Transfer, status_completed}
use transfer_demo.Result.{Result, ok}
use transfer_demo.Action.{World}
use transfer_demo.Database.{Database, TransferRow, find_key}
use transfer_demo.Database.Accounts.{IsUnique}
use transfer_demo.Action.Quiet.{quietly}
use transfer_demo.Repository.Transfers.{scan_transfer}
use transfer_demo.Service.Transfers.{TransferCmd, matches_cmd, transfer}
use transfer_demo.Service.Transfers.Effect.{moved}
use transfer_demo.Service.Transfers.Validation.{IsAcceptable, validate_iff}
use transfer_demo.Service.Transfers.Progress.{IsExecutable, transfer-succeeds}
use transfer_demo.Service.Transfers.Replay.{transfer-replay}

module _ ⦃dec : Decimal⦄ ⦃uuid : UuidCodec⦄ (laws : DecimalLaws dec) (cmd : TransferCmd dec) where
  pub read_back :
      IsScaled dec cmd.amount
      → dec.equal (dec.of_numeric (dec.to_numeric cmd.amount)) cmd.amount ≡ true
  read_back h =
      laws.equal-units (dec.of_numeric (dec.to_numeric cmd.amount)) cmd.amount
        (laws.of_numeric-scaled (dec.to_numeric cmd.amount)) h
      ∙ ap (λ (n : ℤ). eq_ℤ n (dec.to_numeric cmd.amount))
          (laws.of_numeric-units (dec.to_numeric cmd.amount))
      ∙ eq_ℤ_refl (dec.to_numeric cmd.amount)

  -- The row of the command's transfer.
  abbrev pub row_of : ℕ → Database → TransferRow
  row_of u db = record {
    id = db.transfers_seq + 1;
    idempotency_key = some u;
    source_id = cmd.source_id;
    destination_id = cmd.destination_id;
    amount = dec.to_numeric cmd.amount;
    status = status_completed;
    created_at = db.now;
  }

  pub row_of-matches :
      (u : ℕ) (db : Database)
      → IsScaled dec cmd.amount
      → matches_cmd (scan_transfer (row_of u db)) cmd ≡ true
  unfolding matches_cmd
  row_of-matches u db h =
      rw (eq_ℤ_refl cmd.source_id, eq_ℤ_refl cmd.destination_id, read_back h) refl

  pub newest_key :
      (u : ℕ) (db : Database) → find_key u (row_of u db ∷ db.transfers) ≡ some (row_of u db)
  newest_key u db = ground arith

  module _ (db : Database) (acceptable : IsAcceptable cmd) (unique : IsUnique db.accounts)
      (can : IsExecutable cmd db) (u : ℕ) (keyed : (cmd.idempotency_key == "") ≡ false)
      (casts : uuid.cast cmd.idempotency_key ≡ some u) where
    key_stored : can.key ≡ some u
    key_stored = let e = rw (keyed, casts) at can.key_casts in cc

    after_first :
        (transfer cmd (quietly db)).1
        ≡ quietly (
            moved
              (some u)
              cmd.source_id
              cmd.destination_id
              (dec.to_numeric cmd.amount)
              can.source.balance
              can.destination.balance
              db)
    after_first =
        ap (λ (p : Result (Transfer dec) × World). p.1)
          (transfer-succeeds laws cmd db acceptable unique can)
        ∙ rw key_stored refl

    -- If nobody interferes, an acceptable command with a key that is free, which can be carried out,
    -- returns when it is called again after a first call the transfer that the first call stored,
    -- with the id that it was given, and leaves the world as the first call has left it. The account
    -- ids are unique.
    pub transfer-repeats :
        transfer cmd (transfer cmd (quietly db)).1
        ≡ (ok (scan_transfer (row_of u db)), (transfer cmd (quietly db)).1)
    transfer-repeats = rw after_first (
        transfer-replay cmd _ u (row_of u db) ((validate_iff laws cmd).1 acceptable) keyed casts
          (newest_key u db) (row_of-matches u db acceptable.storable.0))
