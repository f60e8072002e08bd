-- ===== src/Service/Accounts/Decision.antt =====
-- What Create and Get are to answer when nobody interferes, as functions of the database, and
-- account_service.go against them.
use transfer_demo.Prelude.{◌≡◌, refl, ◌∙◌, Option, none, some, ℤ}
use transfer_demo.Decimal.{Decimal, DecimalLaws}
use transfer_demo.Domain.{
  GoError, Account, sentinel, account_already_exists, account_not_found_error,
}
use transfer_demo.Result.{Result, Done, ok, err, done}
use transfer_demo.Database.{Database, AccountRow, find_account}
use transfer_demo.Action.Quiet.{
  carried_out, quietly, bind-eq-ok, bind-eq-err, check-eq, check-eq-err,
}
use transfer_demo.Repository.Accounts.{scan_account}
use transfer_demo.Service.Money.{validate_account_id, validate_initial_balance}
use transfer_demo.Service.Money.Laws.{validate_account_id_iff, validate_initial_balance_iff}
use transfer_demo.Service.Accounts.{create, get}
use transfer_demo.Service.Accounts.Effect.{opened}
use transfer_demo.Service.Accounts.Opening.{create-taken, create-fresh, get-eq, get-missing}

module _ ⦃dec : Decimal⦄ where
  module _ (id : ℤ) (balance : dec.Value) (db : Database) where
    abbrev pub opening : Option AccountRow → Done × Database
    opening (some r) = (err (sentinel account_already_exists), db)
    opening none = (done, opened id (dec.to_numeric balance) db)

    abbrev pub with_balance_checked : Option GoError → Done × Database
    with_balance_checked (some e) = (err e, db)
    with_balance_checked none = opening (find_account id db.accounts)

    abbrev pub with_id_checked : Option GoError → Done × Database
    with_id_checked (some e) = (err e, db)
    with_id_checked none = with_balance_checked (validate_initial_balance balance)

    unfoldable pub create_decision : Done × Database
    create_decision = with_id_checked (validate_account_id id)

  abbrev pub account_at : ℤ → Option AccountRow → Result (Account dec)
  account_at id (some r) = ok (scan_account r)
  account_at id none = err (account_not_found_error id)

  abbrev pub read_at : ℤ → Database → Option GoError → Result (Account dec)
  read_at id db (some e) = err e
  read_at id db none = account_at id (find_account id db.accounts)

  unfoldable pub get_decision : ℤ → Database → Result (Account dec)
  get_decision id db = read_at id db (validate_account_id id)

  module _ (laws : DecimalLaws dec) (id : ℤ) (balance : dec.Value) (db : Database) where
    opening-eq :
        (o : Option AccountRow)
        → validate_account_id id ≡ none
        → validate_initial_balance balance ≡ none
        → find_account id db.accounts ≡ o
        → create id balance (quietly db) ≡ carried_out (opening id balance db o)
    opening-eq (some r) valid storable e =
        create-taken laws id balance db ((validate_account_id_iff id).0 valid)
          ((validate_initial_balance_iff laws balance).0 storable) (rw e refl)
    opening-eq none valid storable e =
        create-fresh laws id balance db ((validate_account_id_iff id).0 valid)
          ((validate_initial_balance_iff laws balance).0 storable) e

    with_balance_checked-eq :
        (o : Option GoError)
        → validate_account_id id ≡ none
        → validate_initial_balance balance ≡ o
        → create id balance (quietly db) ≡ carried_out (with_balance_checked id balance db o)
    unfolding create
    with_balance_checked-eq (some e) valid h =
        bind-eq-ok _ _ (check-eq _ valid) ∙ bind-eq-err _ _ (check-eq-err _ h)
    with_balance_checked-eq none valid h = opening-eq (find_account id db.accounts) valid h refl

    with_id_checked-eq :
        (o : Option GoError)
        → validate_account_id id ≡ o
        → create id balance (quietly db) ≡ carried_out (with_id_checked id balance db o)
    unfolding create
    with_id_checked-eq (some e) h = bind-eq-err _ _ (check-eq-err _ h)
    with_id_checked-eq none h = with_balance_checked-eq (validate_initial_balance balance) h refl

    -- If nobody interferes, Create gives exactly the decision: the error of the id, then that of the
    -- balance, then ErrAccountAlreadyExists, each with the database as it is, and otherwise the
    -- opening.
    pub create-decision :
        create id balance (quietly db) ≡ carried_out (create_decision id balance db)
    unfolding create_decision
    create-decision = with_id_checked-eq (validate_account_id id) refl

  module _ (id : ℤ) (db : Database) where
    account_at-eq :
        (o : Option AccountRow)
        → validate_account_id id ≡ none
        → find_account id db.accounts ≡ o
        → get id (quietly db) ≡ (account_at id o, quietly db)
    account_at-eq (some r) valid e = get-eq id db ((validate_account_id_iff id).0 valid) e
    account_at-eq none valid e = get-missing id db ((validate_account_id_iff id).0 valid) e

    read_at-eq :
        (o : Option GoError)
        → validate_account_id id ≡ o
        → get id (quietly db) ≡ (read_at id db o, quietly db)
    unfolding get
    read_at-eq (some e) h = bind-eq-err _ _ (check-eq-err _ h)
    read_at-eq none h = account_at-eq (find_account id db.accounts) h refl

    -- If nobody interferes, Get gives exactly the decision and leaves the database as it is.
    pub get-decision : get id (quietly db) ≡ (get_decision id db, quietly db)
    unfolding get_decision
    get-decision = read_at-eq (validate_account_id id) refl
