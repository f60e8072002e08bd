-- ===== src/Service/Accounts/Opening.antt =====
-- Opening and reading accounts when nobody interferes.
use transfer_demo.Prelude.{
  ◌≡◌, refl, ap, ◌∙◌, Bool, true, false, inl, inr, Option, none, some, ℤ, pos, eq_ℤ_refl, ltb_ℤ,
  ◌≤ℤ◌, if◌then◌else◌, Bool-cases, arith,
}
use transfer_demo.Decimal.{Decimal, DecimalLaws}
use transfer_demo.Domain.{
  sentinel, account_already_exists, account_not_found_error, errors_is, Account, wrap,
}
use transfer_demo.Result.{ok, err, done}
use transfer_demo.Database.{Database, AccountRow, find_account, has_account}
use transfer_demo.Database.Statements.{select_account, or_no_rows}
use transfer_demo.Database.Effects.{with_account, with_deposit}
use transfer_demo.Database.Progress.{insert_account-eq, insert_account-taken, insert_deposit-eq}
use transfer_demo.Action.{tx, pool, pure, Action}
use transfer_demo.Action.Quiet.{
  quietly, bind-eq-ok, bind-eq-err, check-eq, round_trip-quietly, map_error-eq,
}
use transfer_demo.Repository.Errors.{is_unique_violation, pg_error_code, constraint_name}
use transfer_demo.Repository.Tx.{is_retryable, with_tx}
use transfer_demo.Repository.Tx.Quiet.{with_tx-eq-ok, with_tx-eq-err}
use transfer_demo.Repository.Accounts.{create_error, get_error, scan_account}
use transfer_demo.Repository.Accounts
use transfer_demo.Service.Money.Laws.{
  IsStorable, validate_account_id_iff, validate_initial_balance_iff,
}
use transfer_demo.Service.Accounts.{create, get}
use transfer_demo.Service.Accounts.Effect.{opened, sign_positive}

module _ ⦃dec : Decimal⦄ where
  funded :
      (id n : ℤ) (db : Database) (b : Bool) (deposit : Action Unit)
      → ltb_ℤ (pos 0) n ≡ b
      → (b ≡ true → deposit (quietly db) ≡ (done, quietly (with_deposit id n db)))
      → (if b then deposit else pure tt) (quietly db)
        ≡ (done, quietly (if b then with_deposit id n db else db))
  funded id n db true deposit e h = h refl
  funded id n db false deposit e h = refl

  pub repository_create-eq :
      (laws : DecimalLaws dec) (id : ℤ) (balance : dec.Value) (db : Database)
      → IsStorable (pos 0) balance
      → find_account id db.accounts ≡ none
      → Accounts.create tx id balance (quietly db)
        ≡ (done, quietly (opened id (dec.to_numeric balance) db))
  unfolding Accounts.create
  repository_create-eq laws id balance db (scaled, least, most) fresh =
      let n : ℤ = dec.to_numeric balance in
      bind-eq-ok _ _ (
        map_error-eq create_error _
          (round_trip-quietly tx _ (insert_account-eq id n db (least, most) fresh)))
      ∙ rw (sign_positive laws balance scaled) (
          funded id n (with_account id n db) (ltb_ℤ (pos 0) n) _ refl (λ positive.
            map_error-eq (wrap "insert deposit") _ (
              round_trip-quietly tx _ (
                insert_deposit-eq id n (with_account id n db) (ground arith, most)
                  (ground (arith, eq_ℤ_refl id))))))

  repository_create-taken :
      (id : ℤ) (balance : dec.Value) (db : Database)
      → IsStorable (pos 0) balance
      → has_account id db.accounts ≡ true
      → Accounts.create tx id balance (quietly db)
        ≡ (err (sentinel account_already_exists), quietly db)
  unfolding Accounts.create create_error is_unique_violation pg_error_code constraint_name
  repository_create-taken id balance db (scaled, least, most) taken = bind-eq-err _ _ (
      map_error-eq create_error _ (
        round_trip-quietly tx _
          (insert_account-taken id (dec.to_numeric balance) db (least, most) taken)))

  -- What both validations let through.
  checked :
      (id : ℤ) (balance : dec.Value) (laws : DecimalLaws dec) (db : Database)
      → pos 1 ≤ℤ id
      → IsStorable (pos 0) balance
      → create id balance (quietly db) ≡ with_tx (Accounts.create tx id balance) (quietly db)
  unfolding create
  checked id balance laws db valid storable =
      bind-eq-ok _ _ (check-eq _ ((validate_account_id_iff id).1 valid))
      ∙ bind-eq-ok _ _ (check-eq _ ((validate_initial_balance_iff laws balance).1 storable))

  pub opened_row :
      (id n : ℤ) (db : Database)
      → (r : AccountRow) × (find_account id (opened id n db).accounts ≡ some r)
        × (r.id ≡ id)
        × (r.balance ≡ n)
        × (r.version ≡ 0)
  opened_row id n db =
      let r : AccountRow = record {
        id = id;
        balance = n;
        version = 0;
        created_at = db.now;
        updated_at = db.now;
      } in
      (
        r,
        elim (Bool-cases (ltb_ℤ (pos 0) n)) [
          | inl h ↦ rw (h, eq_ℤ_refl id) refl
          | inr h ↦ rw (h, eq_ℤ_refl id) refl
        ],
        refl,
        refl,
        refl,
      )

  selected :
      (id : ℤ) (db : Database) {o : Option AccountRow}
      → find_account id db.accounts ≡ o
      → select_account id db ≡ (or_no_rows o, db)
  unfolding select_account
  selected id db h = rw h refl

  pub get-eq :
      (id : ℤ) (db : Database) {r : AccountRow}
      → pos 1 ≤ℤ id
      → find_account id db.accounts ≡ some r
      → get id (quietly db) ≡ (ok (scan_account r), quietly db)
  unfolding get Accounts.get or_no_rows
  get-eq id db valid found =
      bind-eq-ok _ _ (check-eq _ ((validate_account_id_iff id).1 valid))
      ∙ bind-eq-ok _ _
          (map_error-eq (get_error id) _ (round_trip-quietly pool _ (selected id db found)))

  -- If nobody interferes, Get of a valid id that no account has returns the AccountNotFoundError with
  -- the id and leaves the database as it is.
  pub get-missing :
      (id : ℤ) (db : Database)
      → pos 1 ≤ℤ id
      → find_account id db.accounts ≡ none
      → get id (quietly db) ≡ (err (account_not_found_error id), quietly db)
  unfolding get Accounts.get or_no_rows get_error errors_is
  get-missing id db valid missing =
      bind-eq-ok _ _ (check-eq _ ((validate_account_id_iff id).1 valid))
      ∙ bind-eq-err _ _
          (map_error-eq (get_error id) _ (round_trip-quietly pool _ (selected id db missing)))

module _ ⦃dec : Decimal⦄ (laws : DecimalLaws dec) (id : ℤ) (balance : dec.Value) (db : Database)
    (valid : pos 1 ≤ℤ id) (storable : IsStorable (pos 0) balance) where
  -- If nobody interferes, Create with a valid id and an acceptable balance, under an id that is
  -- taken, returns ErrAccountAlreadyExists and leaves the database as it is.
  pub create-taken :
      has_account id db.accounts ≡ true
      → create id balance (quietly db) ≡ (err (sentinel account_already_exists), quietly db)
  unfolding is_retryable
  create-taken taken =
      checked id balance laws db valid storable
      ∙ with_tx-eq-err _ (repository_create-taken id balance db storable taken) refl

  pub create-fresh :
      find_account id db.accounts ≡ none
      → create id balance (quietly db) ≡ (done, quietly (opened id (dec.to_numeric balance) db))
  create-fresh fresh =
      checked id balance laws db valid storable
      ∙ with_tx-eq-ok _ (repository_create-eq laws id balance db storable fresh)

  -- If nobody interferes, Create with a valid id that is free and an acceptable balance succeeds, and
  -- Get returns the account with that id and the amount of that balance at version 0.
  pub get-create :
      find_account id db.accounts ≡ none
      → (create id balance (quietly db)).0 ≡ done
        × (a : Account dec) × (get id (create id balance (quietly db)).1).0 ≡ ok a
        × (a.id ≡ id)
        × (dec.to_numeric a.balance ≡ dec.to_numeric balance)
        × (a.version ≡ 0)
  get-create fresh =
      let n : ℤ = dec.to_numeric balance in
      let (r, found, same, amount, version) = opened_row id n db in
      rw (create-fresh fresh) (
        refl,
        scan_account r,
        ap (λ p. p.0) (get-eq id (opened id n db) valid found),
        same,
        laws.of_numeric-units r.balance ∙ amount,
        version,
      )
