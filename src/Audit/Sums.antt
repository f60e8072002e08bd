-- ===== src/Audit/Sums.antt =====
-- Sums over the tables, and how an update or an insertion changes them.
use text.Mathlib.Text.{◌==◌ as str_eq}
use transfer_demo.Prelude.{
  ℕ, ◌≡◌, true, ◌&&◌, Option, none, some, List, [], ◌∷◌, String, ℤ, pos, eq_ℤ, eq_ℤ_iff, ◌+ℤ◌,
  int_laws, arith, if◌then◌else◌,
}
use transfer_demo.Database.{AccountRow, DepositRow, LedgerRow, find_account, has_account}
use transfer_demo.Database.Statements.{set_balance}
use transfer_demo.Database.Accounts.{IsUnique, find_account-set_balance, set_balance_missing}

abbrev pub balance_or_zero : Option AccountRow → ℤ
balance_or_zero none = pos 0
balance_or_zero (some r) = r.balance

-- The balance of an account; an account that does not exist has none.
abbrev pub balance_of : ℤ → List AccountRow → ℤ
balance_of id rows = balance_or_zero (find_account id rows)

-- SUM(balance) over accounts.
abbrev pub total_balance : List AccountRow → ℤ
total_balance [] = pos 0
total_balance (r ∷ rows) = r.balance +ℤ total_balance rows

-- SUM(amount) over deposits.
abbrev pub total_deposits : List DepositRow → ℤ
total_deposits [] = pos 0
total_deposits (r ∷ rows) = r.amount +ℤ total_deposits rows

-- SUM(amount) over the deposits of one account.
abbrev pub deposits_of : ℤ → List DepositRow → ℤ
deposits_of id [] = pos 0
deposits_of id (r ∷ rows) =
    (if eq_ℤ r.account_id id then r.amount else pos 0) +ℤ deposits_of id rows

-- SUM(amount) FILTER (WHERE direction = …) over ledger_entries.
abbrev pub total_entries : String → List LedgerRow → ℤ
total_entries direction [] = pos 0
total_entries direction (r ∷ rows) =
    (if str_eq r.direction direction then r.amount else pos 0) +ℤ total_entries direction rows

-- The same for one account.
abbrev pub entries_of : String → ℤ → List LedgerRow → ℤ
entries_of direction id [] = pos 0
entries_of direction id (r ∷ rows) =
    (if str_eq r.direction direction && eq_ℤ r.account_id id then r.amount else pos 0)
    +ℤ entries_of direction id rows

pub balance_of-set_balance :
    (id j balance : ℤ) (now : ℕ) (rows : List AccountRow)
    → balance_of j (set_balance id balance now rows)
      ≡ (if eq_ℤ id j && has_account id rows then balance else balance_of j rows)
balance_of-set_balance id j balance now rows =
    ground (arith, find_account-set_balance id j balance now rows, eq_ℤ_iff id j)

pub total_balance-set_balance :
    (id balance : ℤ) (now : ℕ) (rows : List AccountRow)
    → IsUnique rows
    → has_account id rows ≡ true
    → total_balance (set_balance id balance now rows) +ℤ balance_of id rows
      ≡ total_balance rows +ℤ balance
total_balance-set_balance id balance now [] u h = cc
total_balance-set_balance id balance now (r ∷ rows) u h = grind (
  int_laws,
  eq_ℤ_iff r.id id,
  set_balance_missing id balance now rows,
  total_balance-set_balance id balance now rows u.1,
)

pub has_account-set_balance :
    (id j balance : ℤ) (now : ℕ) (rows : List AccountRow)
    → has_account j (set_balance id balance now rows) ≡ has_account j rows
has_account-set_balance id j balance now rows =
    ground (arith, find_account-set_balance id j balance now rows)
