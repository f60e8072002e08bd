-- ===== src/Api/App/Answers/Agreement.antt =====
-- The handlers and the public server against the state machine.
use transfer_demo.Api.{responded, Context, Server, TransferRequest, CreateAccountRequest}
use transfer_demo.Prelude.{
  ◌≡◌, refl, ap, ◌∙◌, inl, inr, Option, none, some, String, ℤ, leb, Bool-cases,
}
use transfer_demo.Strconv.{parse_int}
use transfer_demo.Decimal.{Decimal, DecimalLaws}
use transfer_demo.Uuid.{UuidCodec}
use transfer_demo.Domain.{GoError, Account, Transfer}
use transfer_demo.Result.{Result, Done, ok, err}
use transfer_demo.Database.{Database}
use transfer_demo.Database.Accounts.{IsUnique}
use transfer_demo.Action.{World}
use transfer_demo.Action.Quiet.{quietly}
use transfer_demo.Service.Accounts as Service
use transfer_demo.Service.Accounts.Decision.{get_decision, create-decision, get-decision}
use transfer_demo.Service.Transfers.{transfer}
use transfer_demo.Service.Transfers.Decision.Agreement.{AllFit, transfer-decision}
use transfer_demo.Api.Mapping.{error_mapping, respond_error, bad_request}
use transfer_demo.Api.Handlers as Handlers
use transfer_demo.Api.Handlers.{created, got, get_by_id, transferred, command, handle_transfer}
use transfer_demo.Api.Probes.{with_id, public_chain-replies, public_chain-records}
use transfer_demo.Api.App.{
  Call, create_account, get_account, post_transaction, handle, endpoint, public_server,
}
use transfer_demo.Api.App.Soundness.{created-world, got-world, transferred-world}
use transfer_demo.Api.App.Answers.{
  error_reply, created_reply, account_reply, transferred_reply, read_reply, answer,
}

module _ ⦃dec : Decimal⦄ where
  respond_error-reply :
      (layer : String) (e : GoError) (c : Context) (s : Server)
      → (respond_error layer e c s).0 ≡ error_reply e
  unfolding respond_error
  respond_error-reply layer e c s = elim (Bool-cases (leb 500 (error_mapping e).0)) [
    | inl h ↦ rw h refl
    | inr h ↦ rw h refl
  ]

  created-reply : (r : Done) (c : Context) (s : Server) → (created r c s).0 ≡ created_reply r
  unfolding created
  created-reply (ok u) c s = refl
  created-reply (err e) c s = respond_error-reply "service" e c _

  got-reply :
      (r : Result (Account dec)) (c : Context) (s : Server) → (got r c s).0 ≡ account_reply r
  unfolding got
  got-reply (ok a) c s = refl
  got-reply (err e) c s = respond_error-reply "service" e c s

  get_by_id-reply :
      (id : Option ℤ) (c : Context) (s : Server) (db : Database)
      → s.world ≡ quietly db
      → ((get_by_id id c s).0 ≡ read_reply id db) × ((get_by_id id c s).1.world ≡ quietly db)
  unfolding get_by_id bad_request
  get_by_id-reply none c s db e = (refl, e)
  get_by_id-reply (some id) c s db e =
      let read : Service.get id s.world ≡ (get_decision id db, quietly db) =
        rw e (get-decision id db) in
      rw read (got-reply (get_decision id db) c _, got-world (get_decision id db) c _)

module _ ⦃dec : Decimal⦄ ⦃uuid : UuidCodec⦄ where
  transferred-reply :
      (r : Result (Transfer dec)) (c : Context) (s : Server)
      → (transferred r c s).0 ≡ transferred_reply r
  unfolding transferred
  transferred-reply (ok t) c s = refl
  transferred-reply (err e) c s = respond_error-reply "service" e c _

  handle_transfer-reply :
      (req : TransferRequest dec) (key : String) (c : Context) (s : Server)
      (r : Result (Transfer dec)) (w : World)
      → transfer (command req key) s.world ≡ (r, w)
      → ((handle_transfer (some req) key c s).0 ≡ transferred_reply r)
        × ((handle_transfer (some req) key c s).1.world ≡ w)
  unfolding handle_transfer
  handle_transfer-reply req key c s r w e = rw e (transferred-reply r c _, transferred-world r c _)

  create-reply :
      (req : CreateAccountRequest dec) (c : Context) (s : Server) (r : Done) (w : World)
      → Service.create req.account_id req.initial_balance s.world ≡ (r, w)
      → ((Handlers.create (some req) c s).0 ≡ created_reply r)
        × ((Handlers.create (some req) c s).1.world ≡ w)
  unfolding Handlers.create
  create-reply req c s r w e = rw e (created-reply r c _, created-world r c _)

  module _ (laws : DecimalLaws dec) (db : Database) (unique : IsUnique db.accounts)
      (fits : AllFit db) where
    handle-answer :
        (call : Call) (c : Context) (s : Server)
        → s.world ≡ quietly db
        → ((handle call c s).0 ≡ (answer call db).0)
          × ((handle call c s).1.world ≡ quietly (answer call db).1)
    unfolding handle answer Handlers.create Handlers.get handle_transfer bad_request
    handle-answer (create_account none) c s e = (refl, e)
    handle-answer (create_account (some req)) c s e =
        create-reply req c s _ _ (rw e (create-decision laws req.account_id req.initial_balance db))
    handle-answer (get_account account_id) c s e = get_by_id-reply (parse_int account_id) c s db e
    handle-answer (post_transaction none key) c s e = (refl, e)
    handle-answer (post_transaction (some req) key) c s e =
        handle_transfer-reply req key c s _ _
          (rw e (transfer-decision laws (command req key) db unique fits))

    -- If nobody interferes, the public server answers every request as the state machine does, and
    -- leaves the database that it leaves: every status, body and effect, malformed requests included.
    -- The account ids are unique, and the stored balances are in the range of their column.
    pub public_server-answer :
        (fresh : String) (call : Call) (c : Context) (s : Server)
        → s.world ≡ quietly db
        → ((public_server fresh call c s).0 ≡ responded (answer call db).0)
          × ((public_server fresh call c s).2.world ≡ quietly (answer call db).1)
    unfolding public_server endpoint
    public_server-answer fresh call c s e =
        let (replied, left) = handle-answer call (with_id fresh c) s e in
        (
          public_chain-replies fresh (endpoint call) c s ∙ ap responded replied,
          ap (λ (s' : Server). s'.world) (public_chain-records fresh (endpoint call) c s) ∙ left,
        )
