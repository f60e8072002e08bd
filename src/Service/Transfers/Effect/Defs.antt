-- ===== src/Service/Transfers/Effect/Defs.antt =====
-- The effect of a transfer: the database that it leaves, written out.
use transfer_demo.Prelude.{ℕ, ◌+◌, ◌≡◌, false, Option, some, ℤ, pos, eq_ℤ, ◌+ℤ◌, ◌-ℤ◌, ◌≤ℤ◌}
use transfer_demo.Decimal.{Decimal}
use transfer_demo.Uuid.{UuidCodec}
use transfer_demo.Domain.{Transfer, status_completed, direction_debit, direction_credit}
use transfer_demo.Database.{Database, AccountRow, find_account, key_taken}
use transfer_demo.Database.Effects.{with_new_balance, with_transfer, with_ledger_entry}
use transfer_demo.Repository.Transfers.{cast_key}
use transfer_demo.Service.Transfers.{TransferCmd, optional_key}

-- The database after `amount` has moved from the account `s`, which had `s_balance`, to `d`.
abbrev pub moved : Option ℕ → ℤ → ℤ → ℤ → ℤ → ℤ → Database → Database
moved key s d amount s_balance d_balance db =
    let n : ℕ = db.transfers_seq + 1 in
    with_ledger_entry n d direction_credit amount (d_balance +ℤ amount) (
      with_ledger_entry n s direction_debit amount (s_balance -ℤ amount) (
        with_transfer key s d amount status_completed
          (with_new_balance d (d_balance +ℤ amount) (with_new_balance s (s_balance -ℤ amount) db))))

module _ ⦃dec : Decimal⦄ ⦃uuid : UuidCodec⦄ where
  -- `db'` is `db` after the command's transfer `t`, between two accounts that exist, of an amount
  -- that the source covers, under a key that is free.
  pub record Moved (cmd : TransferCmd dec) (db : Database) (t : Transfer dec) (db' : Database)
      : Type 0 where
    pub source : AccountRow
    pub destination : AccountRow
    pub key : Option ℕ
    pub source_found : find_account cmd.source_id db.accounts ≡ some source
    pub destination_found : find_account cmd.destination_id db.accounts ≡ some destination
    pub key_casts : cast_key uuid (optional_key cmd.idempotency_key) ≡ some key
    pub differ : eq_ℤ cmd.source_id cmd.destination_id ≡ false
    pub positive : pos 1 ≤ℤ dec.to_numeric cmd.amount
    pub covered : dec.to_numeric cmd.amount ≤ℤ source.balance
    pub free : key_taken key db.transfers ≡ false
    pub written :
        db'
        ≡ moved key cmd.source_id cmd.destination_id
            (dec.to_numeric cmd.amount)
            source.balance
            destination.balance
            db
    pub returned : t ≡ record {
      id = db.transfers_seq + 1;
      idempotency_key = optional_key cmd.idempotency_key;
      source_id = cmd.source_id;
      destination_id = cmd.destination_id;
      amount = cmd.amount;
      status = status_completed;
      created_at = 0;
    }
