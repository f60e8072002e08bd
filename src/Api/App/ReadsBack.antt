-- ===== src/Api/App/ReadsBack.antt =====
-- A client that opens an account and reads it under the printed id.
use transfer_demo.Api.{
  responded, Context, CreateAccountRequest, AccountResponse, Server, no_body, account_body,
}
use transfer_demo.Prelude.{
  ℕ, ◌^◌, ◌<◌, ◌≤◌, ◌≡◌, ◌∙◌, ap, none, some, inl, inr, ℤ, pos, ltb_ℤ, ◌≤ℤ◌, sym, String,
  Bool-cases, arith,
}
use transfer_demo.Strconv.{format_int}
use transfer_demo.Strconv.RoundTrip.{parse_int-format_int}
use transfer_demo.Decimal.{Decimal, DecimalLaws}
use transfer_demo.Uuid.{UuidCodec}
use transfer_demo.Result.{done, ok}
use transfer_demo.Database.{Database, AccountRow, find_account}
use transfer_demo.Database.Accounts.{IsUnique}
use transfer_demo.Action.Quiet.{quietly}
use transfer_demo.Repository.Accounts.{scan_account}
use transfer_demo.Service.Money.Laws.{
  IsStorable, validate_account_id_iff, validate_initial_balance_iff,
}
use transfer_demo.Service.Accounts.Effect.{opened}
use transfer_demo.Service.Accounts.Opening.{opened_row}
use transfer_demo.Service.Accounts.Decision.{
  create_decision, get_decision, with_id_checked, with_balance_checked, opening, account_at,
  read_at,
}
use transfer_demo.Service.Transfers.Decision.Agreement.{AllFit}
use transfer_demo.Api.App.{create_account, get_account, public_server}
use transfer_demo.Api.App.Answers.{answer, read_reply, created_reply, account_reply}
use transfer_demo.Api.App.Answers.Agreement.{public_server-answer}
use transfer_demo.Api.App.Answers.Ranges.{answer-AllFit}

opened-IsUnique :
    (id n : ℤ) (db : Database)
    → find_account id db.accounts ≡ none
    → IsUnique db.accounts
    → IsUnique (opened id n db).accounts
opened-IsUnique id n db fresh unique = elim (Bool-cases (ltb_ℤ (pos 0) n)) [
  | inl h ↦ rw h (fresh, unique)
  | inr h ↦ rw h (fresh, unique)
]

module _ ⦃dec : Decimal⦄ where
  create_decision-fresh :
      (laws : DecimalLaws dec) (id : ℤ) (balance : dec.Value) (db : Database)
      → pos 1 ≤ℤ id
      → IsStorable (pos 0) balance
      → find_account id db.accounts ≡ none
      → create_decision id balance db ≡ (done, opened id (dec.to_numeric balance) db)
  unfolding create_decision
  create_decision-fresh laws id balance db valid storable fresh =
      ap (with_id_checked id balance db) ((validate_account_id_iff id).1 valid)
      ∙ ap (with_balance_checked id balance db)
          ((validate_initial_balance_iff laws balance).1 storable)
      ∙ ap (opening id balance db) fresh

  get_decision-found :
      (id : ℤ) (db : Database) (r : AccountRow)
      → pos 1 ≤ℤ id
      → find_account id db.accounts ≡ some r
      → get_decision id db ≡ ok (scan_account r)
  unfolding get_decision
  get_decision-found id db r valid found =
      ap (read_at id db) ((validate_account_id_iff id).1 valid) ∙ ap (account_at id) found

module _ ⦃dec : Decimal⦄ ⦃uuid : UuidCodec⦄ (laws : DecimalLaws dec)
    (req : CreateAccountRequest dec) (n : ℕ) (db : Database) (numbered : req.account_id ≡ pos n)
    (valid : 1 ≤ n) (fits_int64 : n < 2 ^ 63) (storable : IsStorable (pos 0) req.initial_balance)
    (fresh : find_account (pos n) db.accounts ≡ none) where
  abbrev opened_database : Database
  opened_database = opened (pos n) (dec.to_numeric req.initial_balance) db

  -- Of the state machine.
  answer-opened :
      answer (create_account (some req)) db
      ≡ (record { status = 201; body = no_body }, opened_database)
  unfolding answer
  answer-opened = rw numbered (
      ap (λ p. (created_reply p.0, p.1))
        (create_decision-fresh laws (pos n) req.initial_balance db (omega (arith, valid)) storable
          fresh))

  abbrev account_response : AccountRow → AccountResponse dec
  account_response r = record { account_id = r.id; balance = dec.of_numeric r.balance }

  answer-read :
      (r : AccountRow)
      → find_account (pos n) opened_database.accounts ≡ some r
      → (answer (get_account (format_int (pos n))) opened_database).0
        ≡ record { status = 200; body = account_body (account_response r) }
  unfolding answer
  answer-read r found =
      ap (λ id. read_reply id opened_database) (parse_int-format_int n fits_int64)
      ∙ ap account_reply (get_decision-found (pos n) opened_database r (omega (arith, valid)) found)

  module _ (unique : IsUnique db.accounts) (fits : AllFit db) (id id' : String) (c c' : Context)
      (s s' : Server) (at_rest : s.world ≡ quietly db)
      (follows : s'.world ≡ (public_server id (create_account (some req)) c s).2.world) where
    -- If nobody interferes, POST /accounts with a positive int64 id that is free and an acceptable
    -- balance is answered with 201 and no body, and GET /accounts/ with that id in decimal is then
    -- answered with 200, that id and numerically that balance. The account ids are unique, and the
    -- stored balances are in the range of their column.
    pub public_server-reads_back :
        ((public_server id (create_account (some req)) c s).0
          ≡ responded (record { status = 201; body = no_body }))
        × (a : AccountResponse dec) × ((public_server id'
              (get_account (format_int (pos n)))
              c'
              s').0
            ≡ responded (record { status = 200; body = account_body a }))
        × (a.account_id ≡ req.account_id)
        × (dec.to_numeric a.balance ≡ dec.to_numeric req.initial_balance)
    public_server-reads_back =
        let amount : ℤ = dec.to_numeric req.initial_balance in
        let (r, found, same, holds, version) = opened_row (pos n) amount db in
        let (created, left) =
          public_server-answer laws db unique fits id (create_account (some req)) c s at_rest in
        let all : AllFit opened_database =
          rw (ap (λ p. p.1) answer-opened) at
            (answer-AllFit laws (create_account (some req)) db fits) in
        let (read, kept) =
          public_server-answer laws opened_database (opened-IsUnique (pos n) amount db fresh unique)
            all id' (get_account (format_int (pos n))) c' s'
            (follows ∙ left ∙ ap (λ p. quietly p.1) answer-opened) in
        (
          created ∙ ap (λ p. responded p.0) answer-opened,
          account_response r,
          read ∙ ap responded (answer-read r found),
          same ∙ sym numbered,
          laws.of_numeric-units r.balance ∙ holds,
        )
