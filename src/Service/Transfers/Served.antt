-- ===== src/Service/Transfers/Served.antt =====
-- What the function that runs in the transaction has done when it returns a transfer: it has moved
-- the money, or found the transfer that holds the key.
use mathlib.Core.Option
use text.Mathlib.Text.{◌==◌}
use transfer_demo.Prelude.{
  ℕ, ◌≡◌, refl, ◌⊎◌, inl, inr, Bool, true, false, Option, none, some, if◌then◌else◌,
}
use transfer_demo.Decimal.{Decimal, DecimalLaws, IsScaled}
use transfer_demo.Uuid.{UuidCodec}
use transfer_demo.Domain.{Transfer, sentinel, idempotency_conflict}
use transfer_demo.Result.{ok, err}
use transfer_demo.Database.{Database, TransferRow, find_key}
use transfer_demo.Database.Accounts.{IsUnique}
use transfer_demo.Action.{tx}
use transfer_demo.Action.Ensures.{Holds, Ensures, Holds-imp, Ensures-bind, Ensures-imp, Ensures-if}
use transfer_demo.Repository.Transfers.{scan_transfer}
use transfer_demo.Repository.Transfers.Laws.{find-Ensures}
use transfer_demo.Service.Transfers.{
  TransferCmd, matches_cmd, replay, execute, after_lookup, transfer_in_tx,
}
use transfer_demo.Service.Transfers.Effect.{Moved, execute-Ensures}

module _ ⦃dec : Decimal⦄ ⦃uuid : UuidCodec⦄ where
  -- The transfer `t` stands in the table under the command's key, with the command's accounts and
  -- amount.
  pub record Replayed (cmd : TransferCmd dec) (db : Database) (t : Transfer dec) : Type 0 where
    pub key : ℕ
    pub row : TransferRow
    pub key_casts : uuid.cast cmd.idempotency_key ≡ some key
    pub stored : find_key key db.transfers ≡ some row
    pub read : t ≡ scan_transfer row
    pub same : matches_cmd t cmd ≡ true

  abbrev pub Served : TransferCmd dec → Database → Transfer dec → Database → Type 0
  Served cmd db t db' = Moved cmd db t db' ⊎ (Replayed cmd db t × (db' ≡ db))

  pub replay-Replayed :
      (cmd : TransferCmd dec) (db : Database) (key : ℕ) (row : TransferRow)
      → uuid.cast cmd.idempotency_key ≡ some key
      → find_key key db.transfers ≡ some row
      → Holds (λ t db'. Replayed cmd db' t) (replay cmd (scan_transfer row)) db
  unfolding replay
  replay-Replayed cmd db key row c s = matched (matches_cmd (scan_transfer row) cmd) refl
    where
      matched :
          (b : Bool)
          → matches_cmd (scan_transfer row) cmd ≡ b
          → Holds
              (λ t db'. Replayed cmd db' t)
              (if b then ok (scan_transfer row) else err (sentinel idempotency_conflict))
              db
      matched true e = record {
        key = key;
        row = row;
        key_casts = c;
        stored = s;
        read = refl;
        same = e;
      }
      matched false e = tt

  transfer_in_tx-found :
      (cmd : TransferCmd dec) (db : Database) (key : ℕ) (row : Option TransferRow)
      → uuid.cast cmd.idempotency_key ≡ some key
      → find_key key db.transfers ≡ row
      → Ensures (execute tx cmd) db (Served cmd db)
      → Ensures (after_lookup tx cmd (Option.map scan_transfer row)) db (Served cmd db)
  unfolding after_lookup
  transfer_in_tx-found cmd db key none c s h = record { at = h.at }
  transfer_in_tx-found cmd db key (some row) c s h = record {
    at = λ events.
        Holds-imp (λ t db'. Replayed cmd db' t) (Served cmd db) (replay cmd (scan_transfer row)) db
          (λ t r. inr (r, refl)) (replay-Replayed cmd db key row c s);
  }

  pub transfer_in_tx-Ensures :
      (laws : DecimalLaws dec) (cmd : TransferCmd dec) (db : Database)
      → IsScaled dec cmd.amount
      → IsUnique db.accounts
      → Ensures (transfer_in_tx cmd) db (Served cmd db)
  unfolding transfer_in_tx
  transfer_in_tx-Ensures laws cmd db scaled unique =
      let moves : Ensures (execute tx cmd) db (Served cmd db) =
        Ensures-imp _ (λ t db' m. inl m) (execute-Ensures laws cmd db scaled unique) in
      Ensures-if (cmd.idempotency_key == "") _ _ moves (
        Ensures-bind _ _ (find-Ensures cmd.idempotency_key db) λ o db₁ (key, casts, e, same).
          rw (same, e)
            (transfer_in_tx-found cmd db key (find_key key db.transfers) casts refl moves))
