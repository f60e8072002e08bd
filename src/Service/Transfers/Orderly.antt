-- ===== src/Service/Transfers/Orderly.antt =====
-- The functions that run inside a transaction only use up events and never move a sequence back.
use transfer_demo.Prelude.{Option, none, some, String, List, [], ◌∷◌, ℤ}
use transfer_demo.Decimal.{Decimal}
use transfer_demo.Uuid.{UuidCodec}
use transfer_demo.Domain.{Transfer, LedgerEntry, Account}
use transfer_demo.Database.{AccountRow}
use transfer_demo.Database.Statements.{Statement}
use transfer_demo.Action.{tx}
use transfer_demo.Action.Orderly.{
  Orderly, Growing, whole, SeqLe-refl, Orderly-pure, Orderly-bind, Orderly-if, Orderly-round_trip,
  Growing-select_transfer, orderly_rules,
}
use transfer_demo.Repository.GoMap.{GoMap}
use transfer_demo.Repository.Accounts.{scan_accounts, lock_for_update, update_balance}
use transfer_demo.Repository.Accounts
use transfer_demo.Repository.Transfers.{
  with_cast, select_by_key, insert_row, insert, insert_ledger_entry, find_by_idempotency_key,
}
use transfer_demo.Service.Transfers.{
  TransferCmd, execute, execute_locked, after_lookup, transfer_in_tx,
}

Growing-with_cast :
    {A B : Type 0} (o : Option A) (statement : A → Statement B)
    → ((a : A) → Growing (statement a))
    → Growing (with_cast o statement)
unfolding with_cast
Growing-with_cast none statement g = record { at = λ db. SeqLe-refl db }
Growing-with_cast (some a) statement g = record { at = (g a).at }

module _ ⦃dec : Decimal⦄ where
  pub Orderly-scan_accounts :
      (rows : List AccountRow) (out : GoMap (Account dec)) → Orderly (scan_accounts rows out)
  unfolding scan_accounts
  Orderly-scan_accounts [] out = Orderly-pure out
  Orderly-scan_accounts (r ∷ rows) out =
      Orderly-bind _ _ (search orderly_rules) λ a. Orderly-scan_accounts rows _

  Orderly-lock_for_update : (ids : List ℤ) → Orderly (lock_for_update tx ids)
  unfolding lock_for_update
  Orderly-lock_for_update ids = search (orderly_rules, Orderly-scan_accounts)

  Orderly-update_balance : (id : ℤ) (balance : dec.Value) → Orderly (update_balance tx id balance)
  unfolding update_balance
  Orderly-update_balance id balance = search orderly_rules

  pub Orderly-create : (id : ℤ) (balance : dec.Value) → Orderly (Accounts.create tx id balance)
  unfolding Accounts.create
  Orderly-create id balance = search orderly_rules

  Orderly-insert_ledger_entry : (e : LedgerEntry dec) → Orderly (insert_ledger_entry tx e)
  unfolding insert_ledger_entry
  Orderly-insert_ledger_entry e = search orderly_rules

module _ ⦃dec : Decimal⦄ ⦃uuid : UuidCodec⦄ where
  Orderly-insert : (t : Transfer dec) → Orderly (insert tx t)
  unfolding insert insert_row
  Orderly-insert t = search (orderly_rules, Growing-with_cast)

  Orderly-find : (key : String) → Orderly (find_by_idempotency_key tx key)
  unfolding find_by_idempotency_key select_by_key
  Orderly-find key = record {
    at =
        (Orderly-round_trip (select_by_key key) (Growing-with_cast _ _ Growing-select_transfer)).at;
  }

  pub Orderly-execute_locked :
      (cmd : TransferCmd dec) (m : GoMap (Account dec)) → Orderly (execute_locked tx cmd m)
  unfolding execute_locked
  Orderly-execute_locked cmd m =
      search (orderly_rules, Orderly-update_balance, Orderly-insert, Orderly-insert_ledger_entry)
        depth 30

  Orderly-execute : (cmd : TransferCmd dec) → Orderly (execute tx cmd)
  unfolding execute
  Orderly-execute cmd = search (orderly_rules, Orderly-lock_for_update, Orderly-execute_locked)

  Orderly-after_lookup :
      (cmd : TransferCmd dec) (o : Option (Transfer dec)) → Orderly (after_lookup tx cmd o)
  unfolding after_lookup
  Orderly-after_lookup cmd none = record { at = (Orderly-execute cmd).at }
  Orderly-after_lookup cmd (some t) = record {
    at = λ w. record { consumed = whole; grown = SeqLe-refl w.db };
  }

  pub Orderly-transfer_in_tx : (cmd : TransferCmd dec) → Orderly (transfer_in_tx cmd)
  unfolding transfer_in_tx
  Orderly-transfer_in_tx cmd =
      Orderly-if _ _ _ (Orderly-execute cmd)
        (Orderly-bind _ _ (Orderly-find _) (Orderly-after_lookup cmd))
