-- ===== src/Concurrency/Safety.antt =====
-- What holds while several transfers run at once.
use transfer_demo.Prelude.{ℕ}
use transfer_demo.Decimal.{Decimal, DecimalLaws, IsScaled}
use transfer_demo.Uuid.{UuidCodec}
use transfer_demo.Database.{Database}
use transfer_demo.Audit.Soundness.{IsSound}
use transfer_demo.Service.Transfers.{TransferCmd}
use transfer_demo.Concurrency.{rows_of, System, Reach}
use transfer_demo.Concurrency.Rows.{Current}
use transfer_demo.Concurrency.Steps.{Reach-IsConsistent}

module _ ⦃dec : Decimal⦄ ⦃uuid : UuidCodec⦄ (laws : DecimalLaws dec) (cmd : ℕ → TransferCmd dec)
    (n : ℕ) (scaled : (i : ℕ) → IsScaled dec (cmd i).amount) {db : Database} (sound : IsSound db)
    {s : System} (reach : Reach cmd n db s) where
  -- However the steps of any number of transfers interleave, from sound data, with faults at any call
  -- and accounts opened in between, and amounts of at most 18 decimals: the data stay sound. No
  -- balance is negative, and balances, deposits and the ledger agree, as for one transfer.
  pub interleaving-IsSound : IsSound s.db
  interleaving-IsSound = (Reach-IsConsistent laws cmd n scaled sound reach).sound

  -- No update is lost: however the steps of any number of transfers interleave, from sound data, with
  -- faults at any call and accounts opened in between, and amounts of at most 18 decimals, the rows
  -- that a session has read and locked are still those of the table.
  pub no_lost_update : (i : ℕ) → Current s.db.accounts (rows_of (s.phase i))
  no_lost_update i = ((Reach-IsConsistent laws cmd n scaled sound reach).holding i).current
