-- ===== src/Database/Progress.antt =====
-- When a statement succeeds: its constraints hold, so it writes.
use transfer_demo.Prelude.{
  ℕ, ◌^◌, ◌-◌, ◌+◌, ◌≡◌, true, false, Option, none, String, ℤ, pos, eq_ℤ, ◌≤ℤ◌, arith,
}
use transfer_demo.Result.{ok, done}
use transfer_demo.Database.Rows.{Database, find_account, has_account, key_taken, has_transfer}
use transfer_demo.Database.Statements.{
  out_of_range, numeric_overflow, unique_violation, insert_account, insert_deposit, update_balance,
  insert_transfer, insert_ledger_entry,
}
use transfer_demo.Database.Effects.{
  with_account, with_deposit, with_new_balance, with_transfer, with_ledger_entry,
}

-- An amount that NUMERIC(38, 18) holds, from `least` units on.
abbrev pub Fits : ℤ → ℤ → Type 0
Fits least n = (least ≤ℤ n) × (n ≤ℤ pos (10 ^ 38 - 1))

pub Fits-in_range : (n : ℤ) → Fits (pos 0) n → out_of_range n ≡ false
unfolding out_of_range
Fits-in_range n h = ground arith

pub insert_account-eq :
    (id balance : ℤ) (db : Database)
    → Fits (pos 0) balance
    → find_account id db.accounts ≡ none
    → insert_account id balance db ≡ (done, with_account id balance db)
unfolding insert_account
insert_account-eq id balance db h fresh = ground (arith, Fits-in_range balance h)

pub insert_account-taken :
    (id balance : ℤ) (db : Database)
    → Fits (pos 0) balance
    → has_account id db.accounts ≡ true
    → insert_account id balance db ≡ (unique_violation "accounts_pkey", db)
unfolding insert_account
insert_account-taken id balance db h taken = ground (arith, Fits-in_range balance h)

pub insert_deposit-eq :
    (id amount : ℤ) (db : Database)
    → Fits (pos 1) amount
    → has_account id db.accounts ≡ true
    → insert_deposit id amount db ≡ (done, with_deposit id amount db)
unfolding insert_deposit
insert_deposit-eq id amount db h known = ground (arith, Fits-in_range amount (omega arith, h.1))

pub update_balance-eq :
    (id balance : ℤ) (db : Database)
    → has_account id db.accounts ≡ true
    → Fits (pos 0) balance
    → update_balance id balance db ≡ (done, with_new_balance id balance db)
unfolding update_balance
update_balance-eq id balance db f h = ground (arith, Fits-in_range balance h)

pub update_balance-overflow :
    (id balance : ℤ) (db : Database)
    → has_account id db.accounts ≡ true
    → pos (10 ^ 38) ≤ℤ balance
    → update_balance id balance db ≡ (numeric_overflow, db)
unfolding update_balance out_of_range
update_balance-overflow id balance db f h = ground arith

pub insert_transfer-eq :
    (key : Option ℕ) (s d amount : ℤ) (status : String) (db : Database)
    → Fits (pos 1) amount
    → eq_ℤ s d ≡ false
    → key_taken key db.transfers ≡ false
    → has_account s db.accounts ≡ true
    → has_account d db.accounts ≡ true
    → insert_transfer key s d amount status db
      ≡ (ok (db.transfers_seq + 1), with_transfer key s d amount status db)
unfolding insert_transfer
insert_transfer-eq key s d amount status db h differ free fs fd =
    ground (arith, Fits-in_range amount (omega arith, h.1))

pub insert_ledger_entry-eq :
    (transfer_id : ℕ) (id : ℤ) (direction : String) (amount balance_after : ℤ) (db : Database)
    → Fits (pos 1) amount
    → Fits (pos 0) balance_after
    → has_transfer transfer_id db.transfers ≡ true
    → has_account id db.accounts ≡ true
    → insert_ledger_entry transfer_id id direction amount balance_after db
      ≡ (done, with_ledger_entry transfer_id id direction amount balance_after db)
unfolding insert_ledger_entry
insert_ledger_entry-eq transfer_id id direction amount balance_after db h k t f =
    ground (arith, Fits-in_range amount (omega arith, h.1), Fits-in_range balance_after k)
