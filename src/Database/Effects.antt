-- ===== src/Database/Effects.antt =====
-- What a statement that succeeded has written, and what it has tested.
use transfer_demo.Prelude.{ℕ, ◌+◌, ◌≡◌, false, Option, none, ◌∷◌, String, ℤ, pos, eq_ℤ, ◌≤ℤ◌, arith}
use transfer_demo.Result.{ok}
use transfer_demo.Database.Rows.{Database, find_account, key_taken}
use transfer_demo.Database.Statements.{
  set_balance, update_balance, insert_transfer, insert_ledger_entry, insert_account, insert_deposit,
}
use transfer_demo.Database.Accounts.{set_balance_missing}

abbrev pub with_account : ℤ → ℤ → Database → Database
with_account id balance db = record db {
  accounts =
      record { id = id; balance = balance; version = 0; created_at = db.now; updated_at = db.now }
      ∷ db.accounts;
}

abbrev pub with_deposit : ℤ → ℤ → Database → Database
with_deposit account_id amount db = record db {
  deposits_seq = db.deposits_seq + 1;
  deposits =
      record {
        id = db.deposits_seq + 1;
        account_id = account_id;
        amount = amount;
        created_at = db.now;
      }
      ∷ db.deposits;
}

abbrev pub with_new_balance : ℤ → ℤ → Database → Database
with_new_balance id balance db = record db { accounts = set_balance id balance db.now db.accounts }

abbrev pub with_transfer : Option ℕ → ℤ → ℤ → ℤ → String → Database → Database
with_transfer key source_id destination_id amount status db = record db {
  transfers_seq = db.transfers_seq + 1;
  transfers =
      record {
        id = db.transfers_seq + 1;
        idempotency_key = key;
        source_id = source_id;
        destination_id = destination_id;
        amount = amount;
        status = status;
        created_at = db.now;
      }
      ∷ db.transfers;
}

abbrev pub with_ledger_entry : ℕ → ℤ → String → ℤ → ℤ → Database → Database
with_ledger_entry transfer_id account_id direction amount balance_after db = record db {
  ledger_entries_seq = db.ledger_entries_seq + 1;
  ledger_entries =
      record {
        id = db.ledger_entries_seq + 1;
        transfer_id = transfer_id;
        account_id = account_id;
        direction = direction;
        amount = amount;
        balance_after = balance_after;
        created_at = db.now;
      }
      ∷ db.ledger_entries;
}

-- An account is opened only under a new id, with a balance that is not negative.
pub insert_account-ok :
    (id balance : ℤ) (db : Database) {u : Unit {0}} {db' : Database}
    → insert_account id balance db ≡ (ok u, db')
    → (find_account id db.accounts ≡ none) × (pos 0 ≤ℤ balance) × (db' ≡ with_account id balance db)
unfolding insert_account
insert_account-ok id balance db h = ground arith

pub insert_deposit-ok :
    (id amount : ℤ) (db : Database) {u : Unit {0}} {db' : Database}
    → insert_deposit id amount db ≡ (ok u, db')
    → (pos 1 ≤ℤ amount) × (db' ≡ with_deposit id amount db)
unfolding insert_deposit
insert_deposit-ok id amount db h = ground arith

pub update_balance-ok :
    (id balance : ℤ) (db : Database) {u : Unit {0}} {db' : Database}
    → update_balance id balance db ≡ (ok u, db')
    → db' ≡ with_new_balance id balance db
unfolding update_balance
update_balance-ok id balance db h =
    ground (arith, set_balance_missing id balance db.now db.accounts)

pub insert_transfer-ok :
    (key : Option ℕ) (source_id destination_id amount : ℤ) (status : String) (db : Database) {n : ℕ}
    {db' : Database}
    → insert_transfer key source_id destination_id amount status db ≡ (ok n, db')
    → (n ≡ db.transfers_seq + 1)
      × (eq_ℤ source_id destination_id ≡ false)
      × (pos 1 ≤ℤ amount)
      × (key_taken key db.transfers ≡ false)
      × (db' ≡ with_transfer key source_id destination_id amount status db)
unfolding insert_transfer
insert_transfer-ok key source_id destination_id amount status db h = ground arith

pub insert_ledger_entry-ok :
    (transfer_id : ℕ) (account_id : ℤ) (direction : String) (amount balance_after : ℤ)
    (db : Database) {u : Unit {0}} {db' : Database}
    → insert_ledger_entry transfer_id account_id direction amount balance_after db ≡ (ok u, db')
    → db' ≡ with_ledger_entry transfer_id account_id direction amount balance_after db
unfolding insert_ledger_entry
insert_ledger_entry-ok transfer_id account_id direction amount balance_after db h = ground arith
