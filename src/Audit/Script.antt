-- ===== src/Audit/Script.antt =====
-- audit_script.py: the queries of audit_database, its verdicts and its exit status. The queries read
-- one database, as they do when nobody commits between them. Headings are left out, and so is an
-- exception after the connection.
pub mod Verdict
use transfer_demo.Prelude.{
  ℕ, Bool, true, false, ◌&&◌, List, [], ◌∷◌, ◌++◌, String, ℤ, pos, eq_ℤ, ◌+ℤ◌, ◌-ℤ◌, if◌then◌else◌,
}
use transfer_demo.Domain.{direction_debit, direction_credit}
use transfer_demo.Result.{Done, ok, err}
use transfer_demo.Database.{Database, AccountRow}
use transfer_demo.Database.Statements.{order_by_id}
use transfer_demo.Audit.Sums.{total_balance, total_deposits, deposits_of, entries_of}

-- What is printed, with the numbers that are shown.
pub data Line : Type 0 where
  balances deposits : ℤ → Line
  conserved : Line
  not_conserved : ℤ → Line
  -- Id, balance, deposits, credits and debits of an account.
  reconciled : ℤ → ℤ → ℤ → ℤ → ℤ → Line
  -- Id, balance, and the balance that the entries give.
  unreconciled : ℤ → ℤ → ℤ → Line
  failed : Line

abbrev pub calculated : Database → ℤ → ℤ
calculated db id =
    deposits_of id db.deposits
    +ℤ entries_of direction_credit id db.ledger_entries
    -ℤ entries_of direction_debit id db.ledger_entries

abbrev pub account_line : Database → AccountRow → Line
account_line db r =
    if eq_ℤ r.balance (calculated db r.id)
    then reconciled r.id r.balance (deposits_of r.id db.deposits)
        (entries_of direction_credit r.id db.ledger_entries)
        (entries_of direction_debit r.id db.ledger_entries)
    else unreconciled r.id r.balance (calculated db r.id)

-- The loop over the accounts, with `all_passed`.
unfoldable pub audit_accounts : Database → List AccountRow → List Line × Bool
audit_accounts db [] = ([], true)
audit_accounts db (r ∷ rows) =
    let (lines, all_passed) = audit_accounts db rows in
    (account_line db r ∷ lines, eq_ℤ r.balance (calculated db r.id) && all_passed)

abbrev pub exit_status : Bool → ℕ
exit_status all_passed = if all_passed then 0 else 1

-- The second part, on the accounts ORDER BY id.
abbrev pub audit_ledger : List Line → List Line × Bool → List Line × ℕ
audit_ledger printed (lines, all_passed) = (printed ++ lines, exit_status all_passed)

unfoldable pub audit_connected : Database → List Line × ℕ
unfolding audit_accounts order_by_id
audit_connected db =
    let total_balance : ℤ = total_balance db.accounts in
    let total_deposit : ℤ = total_deposits db.deposits in
    if eq_ℤ total_balance total_deposit
    then audit_ledger (balances total_balance ∷ deposits total_deposit ∷ conserved ∷ [])
        (audit_accounts db (order_by_id db.accounts))
    else (
      balances total_balance
          ∷ deposits total_deposit
          ∷ not_conserved (total_balance -ℤ total_deposit)
          ∷ [],
      1,
    )

-- The argument is the outcome of psycopg2.connect.
unfoldable pub audit_database : Done → Database → List Line × ℕ
unfolding audit_connected
audit_database (ok u) db = audit_connected db
audit_database (err e) db = (failed ∷ [], 1)
