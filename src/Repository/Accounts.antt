-- ===== src/Repository/Accounts.antt =====
-- internal/repository/account_repo.go.
pub mod Laws
pub mod Quiet
use text.Mathlib.Text.{◌==◌}
use transfer_demo.Prelude.{Bool, true, false, List, [], ◌∷◌, ℤ, pos, ltb_ℤ, if◌then◌else◌}
use transfer_demo.Decimal.{Decimal}
use transfer_demo.Domain.{
  GoError, sentinel, account_not_found_error, wrap, errors_is, account_already_exists,
  insufficient_funds, no_rows, Account,
}
use transfer_demo.Result.{Result, ok, err}
use transfer_demo.Database.{AccountRow}
use transfer_demo.Database.Statements.{
  insert_account, insert_deposit, select_account, select_accounts_for_update,
  update_balance as update_accounts,
}
use transfer_demo.Action.{Querier, tx, Action, pure, round_trip, map_error, wrapping, ◌>>=◌, ◌>>◌}
use transfer_demo.Repository.Errors.{is_unique_violation, pg_error_code, code_check_violation}
use transfer_demo.Repository.GoMap.{GoMap, insert}

unfoldable pub create_error : GoError → GoError
create_error e =
    if is_unique_violation e "accounts_pkey"
    then sentinel account_already_exists
    else wrap "insert account" e

unfoldable pub get_error : ℤ → GoError → GoError
get_error id e = if errors_is e no_rows then account_not_found_error id else wrap "get account" e

unfoldable pub update_error : GoError → GoError
update_error e =
    if pg_error_code e == code_check_violation
    then sentinel insufficient_funds
    else wrap "update balance" e

module _ ⦃dec : Decimal⦄ where
  unfoldable pub create : Querier → ℤ → dec.Value → Action Unit
  create q id balance = do
    map_error create_error (round_trip q (insert_account id (dec.to_numeric balance)))
    if ltb_ℤ (pos 0) (dec.sign balance)
        then wrapping "insert deposit" (round_trip q (insert_deposit id (dec.to_numeric balance)))
        else pure tt

  abbrev pub scan_account : AccountRow → Account dec
  scan_account r = record {
    id = r.id;
    balance = dec.of_numeric r.balance;
    version = r.version;
    created_at = r.created_at;
    updated_at = r.updated_at;
  }

  unfoldable pub get : Querier → ℤ → Action (Account dec)
  get q id = do
    r ← map_error (get_error id) (round_trip q (select_account id))
    pure (scan_account r)

  -- The loop over `rows.Next()`; a call of `rows.Scan` may fault.
  unfoldable pub scan_accounts :
      List AccountRow → GoMap (Account dec) → Action (GoMap (Account dec))
  scan_accounts [] out = pure out
  scan_accounts (r ∷ rows) out = do
    a ← wrapping "scan account" (round_trip tx (λ db. (ok (scan_account r), db)))
    scan_accounts rows (insert a.id a out)

  unfoldable pub lock_for_update : Querier → List ℤ → Action (GoMap (Account dec))
  unfolding scan_accounts
  lock_for_update q ids = do
    rows ← wrapping "lock accounts" (round_trip q (select_accounts_for_update ids))
    out ← scan_accounts rows []
    wrapping "iterate accounts" (round_trip tx (λ db. (ok out, db)))

  unfoldable pub update_balance : Querier → ℤ → dec.Value → Action Unit
  update_balance q id balance =
      map_error update_error (round_trip q (update_accounts id (dec.to_numeric balance)))
