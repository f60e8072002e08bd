-- ===== src/Repository/Accounts/Quiet.antt =====
-- The account queries when nobody interferes.
use transfer_demo.Prelude.{◌≡◌, refl, true, List, [], ◌∷◌, ℤ, pos, ◌∙◌}
use transfer_demo.Decimal.{Decimal}
use transfer_demo.Domain.{wrap, Account}
use transfer_demo.Result.{ok, done}
use transfer_demo.Database.{Database, AccountRow, has_account}
use transfer_demo.Database.Statements.{select_accounts_for_update, order_by_id, among}
use transfer_demo.Database.Effects.{with_new_balance}
use transfer_demo.Database.Progress.{Fits, update_balance-eq as update_accounts-eq}
use transfer_demo.Action.{tx}
use transfer_demo.Action.Quiet.{quietly, bind-eq-ok, round_trip-quietly, map_error-eq}
use transfer_demo.Repository.GoMap.{GoMap, insert}
use transfer_demo.Repository.Accounts.{
  scan_account, scan_accounts, lock_for_update, update_balance, update_error,
}
use transfer_demo.Repository.Accounts.Laws.{collect}

module _ ⦃dec : Decimal⦄ where
  scan_accounts-eq :
      (rows : List AccountRow) (out : GoMap (Account dec)) (db : Database)
      → scan_accounts rows out (quietly db) ≡ (ok (collect rows out), quietly db)
  unfolding scan_accounts
  scan_accounts-eq [] out db = refl
  scan_accounts-eq (r ∷ rows) out db =
      bind-eq-ok _ _ (map_error-eq (wrap "scan account") _ (round_trip-quietly tx _ refl))
      ∙ scan_accounts-eq rows (insert r.id (scan_account r) out) db

  pub lock_for_update-eq :
      (ids : List ℤ) (db : Database)
      → lock_for_update tx ids (quietly db)
        ≡ (ok (collect (order_by_id (among ids db.accounts)) []), quietly db)
  unfolding lock_for_update select_accounts_for_update
  lock_for_update-eq ids db =
      bind-eq-ok _ _ (map_error-eq (wrap "lock accounts") _ (round_trip-quietly tx _ refl))
      ∙ bind-eq-ok _ _ (scan_accounts-eq (order_by_id (among ids db.accounts)) [] db)
      ∙ map_error-eq (wrap "iterate accounts") _ (round_trip-quietly tx _ refl)

  pub update_balance-eq :
      (id : ℤ) (v : dec.Value) (db : Database)
      → has_account id db.accounts ≡ true
      → Fits (pos 0) (dec.to_numeric v)
      → update_balance tx id v (quietly db)
        ≡ (done, quietly (with_new_balance id (dec.to_numeric v) db))
  unfolding update_balance
  update_balance-eq id v db f h =
      map_error-eq update_error _
        (round_trip-quietly tx _ (update_accounts-eq id (dec.to_numeric v) db f h))
