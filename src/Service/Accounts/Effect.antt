-- ===== src/Service/Accounts/Effect.antt =====
-- What opening an account has done when it returns no error.
use transfer_demo.Prelude.{
  ◌≡◌, refl, Bool, true, false, none, ℤ, pos, ltb_ℤ, ◌≤ℤ◌, if◌then◌else◌, arith,
}
use transfer_demo.Decimal.{Decimal, DecimalLaws, IsScaled}
use transfer_demo.Database.{Database, find_account}
use transfer_demo.Database.Effects.{
  with_account, with_deposit, insert_account-ok, insert_deposit-ok,
}
use transfer_demo.Action.{Action, tx, pure}
use transfer_demo.Action.Ensures.{
  Ensures, Ensures-bind, Ensures-imp, Ensures-pure, Ensures-map_error, Ensures-round_trip,
}
use transfer_demo.Repository.Accounts

-- The database after an account was opened, with the deposit that funds it.
abbrev pub opened : ℤ → ℤ → Database → Database
opened id balance db =
    if ltb_ℤ (pos 0) balance
    then with_deposit id balance (with_account id balance db)
    else with_account id balance db

pub record Opened (id balance : ℤ) (db db' : Database) : Type 0 where
  pub fresh : find_account id db.accounts ≡ none
  pub nonneg : pos 0 ≤ℤ balance
  pub written : db' ≡ opened id balance db

module _ ⦃dec : Decimal⦄ where
  pub sign_positive :
      (laws : DecimalLaws dec) (v : dec.Value)
      → IsScaled dec v
      → ltb_ℤ (pos 0) (dec.sign v) ≡ ltb_ℤ (pos 0) (dec.to_numeric v)
  sign_positive laws v h = rw (laws.sign-units v h) (ground arith)

  fund-Ensures :
      (id n : ℤ) (db : Database) (b : Bool) (deposit : Action Unit)
      → Ensures deposit
          (with_account id n db)
          (λ _ db'. db' ≡ with_deposit id n (with_account id n db))
      → Ensures (if b then deposit else pure tt) (with_account id n db) (λ _ db'.
        db' ≡ (if b then with_deposit id n (with_account id n db) else with_account id n db))
  fund-Ensures id n db true deposit h = h
  fund-Ensures id n db false deposit h = Ensures-pure tt refl

  pub create-Ensures :
      (laws : DecimalLaws dec) (id : ℤ) (balance : dec.Value) (db : Database)
      → IsScaled dec balance
      → Ensures
          (Accounts.create tx id balance)
          db
          (λ _ db'. Opened id (dec.to_numeric balance) db db')
  unfolding Accounts.create
  create-Ensures laws id balance db h =
      let n : ℤ = dec.to_numeric balance in
      Ensures-bind
        {P = λ _ db'.
          (find_account id db.accounts ≡ none) × (pos 0 ≤ℤ n) × (db' ≡ with_account id n db)}
        _ _ (Ensures-map_error _ _ (Ensures-round_trip _ (λ u db' e. insert_account-ok id n db e)))
        λ _ db₁ (fresh, nonneg, e).
          rw (e, sign_positive laws balance h)
            (Ensures-imp _ (λ _ db' w. record { fresh = fresh; nonneg = nonneg; written = w })
              (fund-Ensures id n db (ltb_ℤ (pos 0) n) _ (
                Ensures-map_error _ _ (
                  Ensures-round_trip _
                    (λ u db' e'. (insert_deposit-ok id n (with_account id n db) e').1)))))
