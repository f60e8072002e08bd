-- ===== src/Api/App/Soundness.antt =====
-- The stored data under the requests that the public server serves.
use transfer_demo.Api.{Ending, responded, panicked, Context, Server}
use transfer_demo.Prelude.{
  ◌≡◌, ◌⊎◌, inl, inr, refl, Option, none, some, List, [], ◌∷◌, String, ℤ, arith,
}
use transfer_demo.Decimal.{Decimal, DecimalLaws}
use transfer_demo.Uuid.{UuidCodec}
use transfer_demo.Domain.{Account, Transfer}
use transfer_demo.Result.{Result, Done, ok, err}
use transfer_demo.Database.{Database}
use transfer_demo.Database.Statements.{select_account, or_no_rows}
use transfer_demo.Action.{Event, World, this_event, check, attempt, round_trip, map_error, ◌>>=◌}
use transfer_demo.Action.Orderly.{All}
use transfer_demo.Audit.Soundness.{IsSound}
use transfer_demo.Repository.Accounts.{get_error, scan_account}
use transfer_demo.Repository.Accounts
use transfer_demo.Service.Drift.{Allowed, KeepsSound}
use transfer_demo.Service.Money.{validate_account_id}
use transfer_demo.Service.Accounts as Service
use transfer_demo.Service.Accounts.Outcome.{create-IsSound}
use transfer_demo.Service.Transfers.Outcome.{transfer-IsSound}
use transfer_demo.Api.Mapping.{bad_request}
use transfer_demo.Api.Handlers as Handlers
use transfer_demo.Api.Handlers.{created, got, get_by_id, transferred, command, handle_transfer}
use transfer_demo.Api.Outcome.{respond_error-world}
use transfer_demo.Api.Probes.{with_id, recorded, public_chain-records}
use transfer_demo.Api.App.{
  Call, create_account, get_account, post_transaction, handle, endpoint, public_server, Arrival,
  serve, serve_all,
}

module _ ⦃dec : Decimal⦄ where
  -- Get only reads: the database is as it was, or as others have left it.
  get-db :
      (id : ℤ) (w : World)
      → ((Service.get id w).1.db ≡ w.db)
        ⊎ ((Service.get id w).1.db ≡ (this_event w.events).others w.db)
  unfolding Service.get Accounts.get check ◌>>=◌ map_error round_trip attempt select_account
      or_no_rows validate_account_id
  get-db id w = ground arith

  pub created-world : (r : Done) (c : Context) (s : Server) → (created r c s).1.world ≡ s.world
  unfolding created
  created-world (ok u) c s = refl
  created-world (err e) c s = respond_error-world "service" e c _

  pub got-world :
      (r : Result (Account dec)) (c : Context) (s : Server) → (got r c s).1.world ≡ s.world
  unfolding got
  got-world (ok a) c s = refl
  got-world (err e) c s = respond_error-world "service" e c s

module _ ⦃dec : Decimal⦄ ⦃uuid : UuidCodec⦄ where
  pub transferred-world :
      (r : Result (Transfer dec)) (c : Context) (s : Server) → (transferred r c s).1.world ≡ s.world
  unfolding transferred
  transferred-world (ok t) c s = refl
  transferred-world (err e) c s = respond_error-world "service" e c _

  pub recorded-world :
      (path : String) (r : Ending dec) (c : Context) (s : Server)
      → (recorded path r c s).world ≡ s.world
  recorded-world path (panicked v) c s = refl
  recorded-world path (responded r) c s = refl

module _ ⦃dec : Decimal⦄ ⦃uuid : UuidCodec⦄ (laws : DecimalLaws dec)
    (Rely : Database → Database → Type 0) (keeps : KeepsSound Rely) where
  get-IsSound :
      (id : ℤ) (w : World)
      → All (Allowed Rely) w.events
      → IsSound w.db
      → IsSound (Service.get id w).1.db
  get-IsSound id w allowed sound = elim (get-db id w) [
    | inl same ↦ rw same sound
    | inr seen ↦ rw seen (others_sound w.events allowed)
  ]
    where
      others_sound :
          (events : List Event)
          → All (Allowed Rely) events
          → IsSound ((this_event events).others w.db)
      others_sound [] a = sound
      others_sound (e ∷ events) a = keeps w.db (e.others w.db) (a.0.0 w.db) sound

  module _ (c : Context) (s : Server) (allowed : All (Allowed Rely) s.world.events)
      (sound : IsSound s.world.db) where
    read-IsSound : (id : Option ℤ) → IsSound (get_by_id id c s).1.world.db
    unfolding get_by_id bad_request
    read-IsSound none = sound
    read-IsSound (some id) = rw got-world (get-IsSound id s.world allowed sound)

    pub handle-IsSound : (call : Call) → IsSound (handle call c s).1.world.db
    unfolding handle Handlers.create Handlers.get handle_transfer bad_request
    handle-IsSound (create_account none) = sound
    handle-IsSound (create_account (some req)) =
        rw created-world
          (create-IsSound laws Rely keeps req.account_id req.initial_balance s.world allowed sound)
    handle-IsSound (get_account account_id) = read-IsSound _
    handle-IsSound (post_transaction none key) = sound
    handle-IsSound (post_transaction (some req) key) =
        rw transferred-world
          (transfer-IsSound laws Rely keeps (command req key) s.world allowed sound)

  -- What the surroundings do while each request is served.
  abbrev pub AllAllowed : List Arrival → Type 0
  AllAllowed [] = Unit
  AllAllowed (a ∷ arrivals) = All (Allowed Rely) a.events × AllAllowed arrivals

  pub serve-IsSound :
      (a : Arrival) (s : Server)
      → All (Allowed Rely) a.events
      → IsSound s.world.db
      → IsSound (serve a s).2.world.db
  unfolding serve public_server endpoint
  serve-IsSound a s allowed sound =
      let s₀ : Server = record s { world = record { db = s.world.db; events = a.events } } in
      let next = endpoint a.call in
      let after = next (with_id a.fresh a.context) s₀ in
      rw
        (
          public_chain-records a.fresh next a.context s₀,
          recorded-world a.context.path after.0 after.1 after.2,
        )
        (handle-IsSound (with_id a.fresh a.context) s₀ allowed sound a.call)

  -- The stored data stay sound under every sequence of requests to the public server, whichever
  -- handlers they reach and whatever they answer, from sound data, under faults and under commits of
  -- others that keep the data sound, where a deadlock or a serialization failure at a commit has not
  -- landed.
  pub serve_all-IsSound :
      (arrivals : List Arrival) (s : Server)
      → AllAllowed arrivals
      → IsSound s.world.db
      → IsSound (serve_all arrivals s).1.world.db
  unfolding serve_all
  serve_all-IsSound [] s allowed sound = sound
  serve_all-IsSound (a ∷ arrivals) s allowed sound =
      serve_all-IsSound arrivals (serve a s).2 allowed.1 (serve-IsSound a s allowed.0 sound)
