-- ===== src/Database/Statements.antt =====
-- The SQL statements of internal/repository over the tables, with the constraints of
-- migrations/0001_init.up.sql in the order in which the server tests them: the range of NUMERIC(38,
-- 18), CHECK, unique indexes, foreign keys. A sequence moves on also when the insertion fails.
use transfer_demo.Prelude.{
  ℕ, ◌+◌, ◌^◌, Bool, false, ◌||◌, Option, none, some, List, [], ◌∷◌, String, ℤ, pos, pos_part,
  neg_part, eq_ℤ, ltb_ℤ, leb_ℤ, leb, not, if◌then◌else◌,
}
use transfer_demo.Domain.{sentinel, pg_error, no_rows}
use transfer_demo.Database.Rows.{
  AccountRow, TransferRow, Database, find_account, has_account, find_key, key_taken, has_transfer,
}
use transfer_demo.Result.{Result, ok, err, done}

-- 38 digits in all, 18 of them behind the point: the absolute value is below 10^20.
abbrev pub numeric_limit : ℕ
numeric_limit = 10 ^ 38

unfoldable pub out_of_range : ℤ → Bool
out_of_range n = leb numeric_limit (pos_part n + neg_part n)

abbrev pub violation {ℓ} : {A : Type ℓ} → String → String → Result A
violation code constraint =
    err (pg_error (record { code = code; constraint_name = constraint; message = constraint }))

abbrev pub unique_violation {ℓ} : {A : Type ℓ} → String → Result A
unique_violation = violation "23505"

abbrev pub check_violation {ℓ} : {A : Type ℓ} → String → Result A
check_violation = violation "23514"

abbrev pub foreign_key_violation {ℓ} : {A : Type ℓ} → String → Result A
foreign_key_violation = violation "23503"

abbrev pub numeric_overflow {ℓ} : {A : Type ℓ} → Result A
numeric_overflow = violation "22003" ""

-- What a statement does to the database that its transaction sees.
abbrev pub Statement : Type 0 → Type 0
Statement A = Database → Result A × Database

-- INSERT INTO accounts (id, balance) VALUES ($1, $2)
unfoldable pub insert_account : ℤ → ℤ → Statement Unit
insert_account id balance db =
    if out_of_range balance
    then (numeric_overflow, db)
    else if ltb_ℤ balance (pos 0)
    then (check_violation "balance_non_negative", db)
    else if has_account id db.accounts
    then (unique_violation "accounts_pkey", db)
    else (
      done,
      record db {
        accounts =
            record {
              id = id;
              balance = balance;
              version = 0;
              created_at = db.now;
              updated_at = db.now;
            }
            ∷ db.accounts;
      },
    )

-- INSERT INTO deposits (account_id, amount) VALUES ($1, $2)
unfoldable pub insert_deposit : ℤ → ℤ → Statement Unit
insert_deposit account_id amount db =
    let next : ℕ = db.deposits_seq + 1 in
    let db' = record db { deposits_seq = next } in
    if out_of_range amount
    then (numeric_overflow, db')
    else if leb_ℤ amount (pos 0)
    then (check_violation "deposits_amount_check", db')
    else if not (has_account account_id db.accounts)
    then (foreign_key_violation "deposits_account_id_fkey", db')
    else (
      done,
      record db' {
        deposits =
            record { id = next; account_id = account_id; amount = amount; created_at = db.now }
            ∷ db.deposits;
      },
    )

unfoldable pub or_no_rows {ℓ} : {A : Type ℓ} → Option A → Result A
or_no_rows none = err (sentinel no_rows)
or_no_rows (some a) = ok a

-- SELECT id, balance, version, created_at, updated_at FROM accounts WHERE id = $1
unfoldable pub select_account : ℤ → Statement AccountRow
unfolding or_no_rows
select_account id db = (or_no_rows (find_account id db.accounts), db)

unfoldable pub member : ℤ → List ℤ → Bool
member id [] = false
member id (i ∷ ids) = eq_ℤ i id || member id ids

unfoldable pub among : List ℤ → List AccountRow → List AccountRow
among ids [] = []
among ids (r ∷ rows) = let rest = among ids rows in if member r.id ids then r ∷ rest else rest

unfoldable pub insert_by_id : AccountRow → List AccountRow → List AccountRow
insert_by_id r [] = r ∷ []
insert_by_id r (s ∷ rows) = if leb_ℤ r.id s.id then r ∷ s ∷ rows else s ∷ insert_by_id r rows

unfoldable pub order_by_id : List AccountRow → List AccountRow
order_by_id [] = []
order_by_id (r ∷ rows) = insert_by_id r (order_by_id rows)

-- SELECT … FROM accounts WHERE id = ANY($1) ORDER BY id FOR UPDATE, without the locks: a transaction
-- runs alone here.
unfoldable pub select_accounts_for_update : List ℤ → Statement (List AccountRow)
unfolding order_by_id insert_by_id among member
select_accounts_for_update ids db = (ok (order_by_id (among ids db.accounts)), db)

-- SET balance = $2, version = version + 1, updated_at = now() WHERE id = $1
abbrev pub set_balance : ℤ → ℤ → ℕ → List AccountRow → List AccountRow
set_balance id balance now [] = []
set_balance id balance now (r ∷ rows) =
    (if eq_ℤ r.id id
      then record r { balance = balance; version = r.version + 1; updated_at = now }
      else r)
    ∷ set_balance id balance now rows

-- UPDATE accounts SET balance = $2, … WHERE id = $1: a new row is tested only where one matches.
unfoldable pub update_balance : ℤ → ℤ → Statement Unit
update_balance id balance db =
    if not (has_account id db.accounts)
    then (done, db)
    else if out_of_range balance
    then (numeric_overflow, db)
    else if ltb_ℤ balance (pos 0)
    then (check_violation "balance_non_negative", db)
    else (done, record db { accounts = set_balance id balance db.now db.accounts })

-- SELECT … FROM transfers WHERE idempotency_key = $1::uuid
unfoldable pub select_transfer : ℕ → Statement TransferRow
unfolding or_no_rows
select_transfer key db = (or_no_rows (find_key key db.transfers), db)

-- INSERT INTO transfers (idempotency_key, source_id, destination_id, amount, status)
-- VALUES ($1::uuid, $2, $3, $4, $5) RETURNING id
unfoldable pub insert_transfer : Option ℕ → ℤ → ℤ → ℤ → String → Statement ℕ
insert_transfer key source_id destination_id amount status db =
    let next : ℕ = db.transfers_seq + 1 in
    let db' = record db { transfers_seq = next } in
    if out_of_range amount
    then (numeric_overflow, db')
    else if eq_ℤ source_id destination_id
    then (check_violation "chk_diff_accounts", db')
    else if leb_ℤ amount (pos 0)
    then (check_violation "transfers_amount_check", db')
    else if key_taken key db.transfers
    then (unique_violation "uq_transfers_idempotency_key", db')
    else if not (has_account source_id db.accounts)
    then (foreign_key_violation "transfers_source_id_fkey", db')
    else if not (has_account destination_id db.accounts)
    then (foreign_key_violation "transfers_destination_id_fkey", db')
    else (
      ok next,
      record db' {
        transfers =
            record {
              id = next;
              idempotency_key = key;
              source_id = source_id;
              destination_id = destination_id;
              amount = amount;
              status = status;
              created_at = db.now;
            }
            ∷ db.transfers;
      },
    )

-- INSERT INTO ledger_entries (transfer_id, account_id, direction, amount, balance_after)
-- VALUES ($1, $2, $3, $4, $5)
unfoldable pub insert_ledger_entry : ℕ → ℤ → String → ℤ → ℤ → Statement Unit
insert_ledger_entry transfer_id account_id direction amount balance_after db =
    let next : ℕ = db.ledger_entries_seq + 1 in
    let db' = record db { ledger_entries_seq = next } in
    if out_of_range amount || out_of_range balance_after
    then (numeric_overflow, db')
    else if leb_ℤ amount (pos 0)
    then (check_violation "ledger_entries_amount_check", db')
    else if not (has_transfer transfer_id db.transfers)
    then (foreign_key_violation "ledger_entries_transfer_id_fkey", db')
    else if not (has_account account_id db.accounts)
    then (foreign_key_violation "ledger_entries_account_id_fkey", db')
    else (
      done,
      record db' {
        ledger_entries =
            record {
              id = next;
              transfer_id = transfer_id;
              account_id = account_id;
              direction = direction;
              amount = amount;
              balance_after = balance_after;
              created_at = db.now;
            }
            ∷ db.ledger_entries;
      },
    )
