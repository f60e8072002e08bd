-- ===== src/Concurrency/Bank/View.antt =====
-- The abstract view of the writes.
use mathlib.Core.Path.{fun_ext}
use transfer_demo.Prelude.{
  ℕ, ◌≡◌, refl, ap, ◌∙◌, inl, inr, true, false, Option, none, some, ℤ, pos, eq_ℤ, eq_ℤ_iff, ltb_ℤ,
  ◌+ℤ◌, ◌-ℤ◌, ◌≤ℤ◌, Bool-cases, arith,
}
use transfer_demo.Database.{Database, AccountRow, find_account, has_account}
use transfer_demo.Database.Accounts.{find_account-set_balance}
use transfer_demo.Database.Effects.{with_account, with_new_balance}
use transfer_demo.Service.Accounts.Effect as Effect
use transfer_demo.Service.Transfers.Effect.{moved}
use transfer_demo.Concurrency.Bank.{Bank, set_at, move_between, open_at, view}

view_at :
    (id : ℤ) (db : Database) {r : AccountRow}
    → find_account id db.accounts ≡ some r
    → view db id ≡ some r.balance
view_at id db f = rw f refl

view-with_new_balance :
    (id balance : ℤ) (db : Database)
    → has_account id db.accounts ≡ true
    → view (with_new_balance id balance db) ≡ set_at id balance (view db)
view-with_new_balance id balance db h = fun_ext (λ j. at j)
  where
    at : (j : ℤ) → view (with_new_balance id balance db) j ≡ set_at id balance (view db) j
    at j = ground (arith, eq_ℤ_iff id j, find_account-set_balance id j balance db.now db.accounts)

kept :
    (id j balance : ℤ) (db : Database)
    → has_account j db.accounts ≡ true
    → has_account j (with_new_balance id balance db).accounts ≡ true
kept id j balance db h = ground (arith, find_account-set_balance id j balance db.now db.accounts)

known :
    (id : ℤ) (db : Database) {r : AccountRow}
    → find_account id db.accounts ≡ some r
    → has_account id db.accounts ≡ true
known id db f = rw f refl

view-moved :
    (key : Option ℕ) (s d amount x y : ℤ) (db : Database)
    → has_account s db.accounts ≡ true
    → has_account d db.accounts ≡ true
    → view (moved key s d amount x y db) ≡ set_at d (y +ℤ amount) (set_at s (x -ℤ amount) (view db))
view-moved key s d amount x y db hs hd =
    view-with_new_balance d (y +ℤ amount) (with_new_balance s (x -ℤ amount) db)
      (kept s d (x -ℤ amount) db hd)
    ∙ ap (set_at d (y +ℤ amount)) (view-with_new_balance s (x -ℤ amount) db hs)

allowed :
    (s d amount x y : ℤ) (bank : Bank)
    → eq_ℤ s d ≡ false
    → pos 1 ≤ℤ amount
    → amount ≤ℤ x
    → move_between s d amount (some x) (some y) bank
      ≡ some (set_at d (y +ℤ amount) (set_at s (x -ℤ amount) bank))
allowed s d amount x y bank differ positive covered = ground arith

-- A transfer that has landed is one operation of the abstract state.
pub view-move_between :
    (key : Option ℕ) (s d amount : ℤ) (db : Database) {source destination : AccountRow}
    → find_account s db.accounts ≡ some source
    → find_account d db.accounts ≡ some destination
    → eq_ℤ s d ≡ false
    → pos 1 ≤ℤ amount
    → amount ≤ℤ source.balance
    → move_between s d amount (view db s) (view db d) (view db)
      ≡ some (view (moved key s d amount source.balance destination.balance db))
view-move_between key s d amount db {source} {destination} fs fd differ positive covered =
    rw
      (
        view_at s db fs,
        view_at d db fd,
        view-moved key s d amount source.balance destination.balance db (known s db fs)
            (known d db fd),
      )
      (allowed s d amount source.balance destination.balance (view db) differ positive covered)

-- So is the opening of an account.
pub view-open_at :
    (id balance : ℤ) (db : Database)
    → find_account id db.accounts ≡ none
    → pos 0 ≤ℤ balance
    → open_at id balance (view db id) (view db) ≡ some (view (Effect.opened id balance db))
view-open_at id balance db fresh nonneg = rw (missing, rows) (ground (arith, at))
  where
    missing : view db id ≡ none
    missing = rw fresh refl

    at : view (with_account id balance db) ≡ set_at id balance (view db)
    at = fun_ext (λ j. ground arith)

    rows : view (Effect.opened id balance db) ≡ view (with_account id balance db)
    rows = elim (Bool-cases (ltb_ℤ (pos 0) balance)) [ inl h ↦ rw h refl | inr h ↦ rw h refl ]
