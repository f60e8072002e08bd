-- ===== src/Repository/Accounts/Laws.antt =====
-- What the account queries have done when they return no error.
use mathlib.Core.Option
use transfer_demo.Prelude.{
  ◌≡◌, refl, ap, ◌∙◌, Option, none, some, List, [], ◌∷◌, ℤ, eq_ℤ, eq_ℤ_iff, arith, if◌then◌else◌,
}
use transfer_demo.Decimal.{Decimal}
use transfer_demo.Domain.{Account}
use transfer_demo.Database.{Database, AccountRow, find_account}
use transfer_demo.Database.Statements.{select_accounts_for_update, order_by_id, among, member}
use transfer_demo.Database.Accounts.{
  IsUnique, find_account-order_by_id, find_account-among, IsUnique-order_by_id, IsUnique-among,
}
use transfer_demo.Database.Effects.{with_new_balance, update_balance-ok as update_accounts-ok}
use transfer_demo.Action.{tx}
use transfer_demo.Action.Ensures.{
  Ensures, Ensures-bind, Ensures-pure, Ensures-map_error, Ensures-round_trip,
}
use transfer_demo.Repository.GoMap.{GoMap, insert, lookup}
use transfer_demo.Repository.Accounts.{scan_account, scan_accounts, lock_for_update, update_balance}

lookup-insert :
    {V : Type 0} (k j : ℤ) (v : V) (m : GoMap V)
    → lookup j (insert k v m) ≡ (if eq_ℤ k j then some v else lookup j m)
lookup-insert k j v [] = refl
lookup-insert k j v ((i, u) ∷ m) =
    ground (arith, eq_ℤ_iff k j, eq_ℤ_iff i k, eq_ℤ_iff i j, lookup-insert k j v m)

module _ ⦃dec : Decimal⦄ where
  -- The map that the loop over the rows fills.
  abbrev pub collect : List AccountRow → GoMap (Account dec) → GoMap (Account dec)
  collect [] out = out
  collect (r ∷ rows) out = collect rows (insert r.id (scan_account r) out)

  pub or_else : {A : Type 0} → Option A → Option A → Option A
  or_else none o = o
  or_else (some a) o = some a

  pub lookup-collect :
      (j : ℤ) (rows : List AccountRow) (out : GoMap (Account dec))
      → IsUnique rows
      → lookup j (collect rows out)
        ≡ or_else (Option.map scan_account (find_account j rows)) (lookup j out)
  unfolding or_else
  lookup-collect j [] out u = refl
  lookup-collect j (r ∷ rows) out u = ground (
    arith,
    eq_ℤ_iff r.id j,
    lookup-insert r.id j (scan_account r) out,
    lookup-collect j rows (insert r.id (scan_account r) out),
  )

  abbrev pub Collected :
      List AccountRow → GoMap (Account dec) → Database → GoMap (Account dec) → Database → Type 0
  Collected rows out db m db' = (m ≡ collect rows out) × (db' ≡ db)

  pub scan_accounts-Ensures :
      (rows : List AccountRow) (out : GoMap (Account dec)) (db : Database)
      → Ensures (scan_accounts rows out) db (Collected rows out db)
  unfolding scan_accounts
  scan_accounts-Ensures [] out db = Ensures-pure out (refl, refl)
  scan_accounts-Ensures (r ∷ rows) out db =
      Ensures-bind {P = λ a db₁. (a ≡ scan_account r) × (db₁ ≡ db)} _ _
        (Ensures-map_error _ _ (Ensures-round_trip _ (λ a db' e. (cc, cc))))
        λ a db₁ p. rw (p.0, p.1) (scan_accounts-Ensures rows (insert r.id (scan_account r) out) db)

  -- The selection is read whole, and the database stays as it was.
  abbrev pub Locked : List ℤ → Database → GoMap (Account dec) → Database → Type 0
  Locked ids db m db' =
      ((j : ℤ)
        → lookup j m
          ≡ Option.map scan_account (if member j ids then find_account j db.accounts else none))
      × (db' ≡ db)

  pub or_else-none : {A : Type 0} (o : Option A) → or_else o none ≡ o
  unfolding or_else
  or_else-none none = refl
  or_else-none (some a) = refl

  pub lookup-selected :
      (ids : List ℤ) (j : ℤ) (rows : List AccountRow)
      → IsUnique rows
      → lookup j (collect (order_by_id (among ids rows)) [])
        ≡ Option.map scan_account (if member j ids then find_account j rows else none)
  lookup-selected ids j rows u =
      lookup-collect j (order_by_id (among ids rows)) []
        (IsUnique-order_by_id (among ids rows) (IsUnique-among ids rows u))
      ∙ or_else-none _
      ∙ ap (Option.map scan_account)
          (find_account-order_by_id j (among ids rows) ∙ find_account-among j ids rows)

  -- If LockForUpdate returns a map, on unique account ids, then the map gives for an id that was
  -- asked for the account as it stands in the table, and nothing for any other id or for one with
  -- no account; and the database is as it was.
  pub lock_for_update-Ensures :
      (ids : List ℤ) (db : Database)
      → IsUnique db.accounts
      → Ensures (lock_for_update tx ids) db (Locked ids db)
  unfolding lock_for_update select_accounts_for_update
  lock_for_update-Ensures ids db u =
      Ensures-bind {P = λ rows db₁. (rows ≡ order_by_id (among ids db.accounts)) × (db₁ ≡ db)} _ _
        (Ensures-map_error _ _ (Ensures-round_trip _ (λ a db' e. (cc, cc))))
        λ rows db₁ p.
          Ensures-bind {P = Collected rows [] db₁} _ _ (scan_accounts-Ensures rows [] db₁)
            λ out db₂ q. Ensures-map_error _ _ (
              Ensures-round_trip _ (λ m db' e. (
                λ j.
                    let m_eq : m ≡ collect (order_by_id (among ids db.accounts)) [] = cc in
                    rw m_eq (lookup-selected ids j db.accounts u),
                cc,
              )))

  pub update_balance-Ensures :
      (id : ℤ) (balance : dec.Value) (db : Database)
      → Ensures
          (update_balance tx id balance)
          db
          (λ _ db'. db' ≡ with_new_balance id (dec.to_numeric balance) db)
  unfolding update_balance
  update_balance-Ensures id balance db =
      Ensures-map_error _ _
        (Ensures-round_trip _ (λ u db' e. update_accounts-ok id (dec.to_numeric balance) db e))
