-- ===== src/Api/App/Logging.antt =====
-- What the requests of the public server leave in the log, and what clients learn of internal errors.
use transfer_demo.Api.{
  responded, Context, LogLine, request, request_failed, Server, Reply, error_body,
}
use transfer_demo.Prelude.{
  ◌≡◌, ◌<◌, ◌⊎◌, inl, inr, refl, none, some, List, ◌∷◌, String, arith, ap, ℤ, Option, leb, true,
  false,
}
use transfer_demo.Decimal.{Decimal}
use transfer_demo.Uuid.{UuidCodec}
use transfer_demo.Domain.{GoError, Account, Transfer}
use transfer_demo.Result.{Result, Done, ok, err}
use transfer_demo.Api.Mapping.{error_mapping, respond_error, bad_request}
use transfer_demo.Api.Handlers as Handlers
use transfer_demo.Strconv.{parse_int}
use transfer_demo.Action.{World}
use transfer_demo.Service.Accounts
use transfer_demo.Service.Transfers.{transfer}
use transfer_demo.Api.Handlers.{command, created, got, get_by_id, transferred, handle_transfer}
use transfer_demo.Api.Probes.{with_id, public_chain-replies, public_chain-records}
use transfer_demo.Api.App.{
  Call, create_account, get_account, post_transaction, handle, endpoint, public_server,
}

-- Only what no client error is, is answered with 500.
internal_or_not :
    (e : GoError)
    → ((leb 500 (error_mapping e).0 ≡ false) × ((error_mapping e).0 < 500))
      ⊎ ((leb 500 (error_mapping e).0 ≡ true) × (error_mapping e ≡ (500, "internal")))
unfolding error_mapping
internal_or_not e = ground arith

abbrev error_of : {A : Type 0} → Result A → Option GoError
error_of (ok a) = none
error_of (err e) = some e

module _ ⦃dec : Decimal⦄ where
  -- A reply of 500 is that to an error of the service, has a fixed body, and one line in the log with
  -- the request's id, method and path and this error. Other replies are below 500 and have no line.
  abbrev pub HandledOnce :
      Option GoError → Context → Reply dec → List LogLine → List LogLine → Type 0
  HandledOnce failure c r log log' =
      ((r.status < 500) × (log' ≡ log))
      ⊎ ((r.status ≡ 500)
          × (r.body ≡ error_body (record { error = "internal server error" }))
          × (e : GoError) × (failure ≡ some e)
          × (log' ≡ request_failed c.request_id c.method c.path "internal" "service" e ∷ log))

  respond_error-HandledOnce :
      (e : GoError) (c : Context) (s : Server)
      → HandledOnce
          (some e)
          c
          (respond_error "service" e c s).0
          s.log
          (respond_error "service" e c s).1.log
  unfolding respond_error
  respond_error-HandledOnce e c s = elim (internal_or_not e) [
    | inl (off, low) ↦ rw off (inl (low, refl))
    | inr (on, internal) ↦ rw internal (inr (refl, refl, e, refl, refl))
  ]

  created-HandledOnce :
      (r : Done) (c : Context) (s : Server)
      → HandledOnce (error_of r) c (created r c s).0 s.log (created r c s).1.log
  unfolding created
  created-HandledOnce (ok u) c s = inl (omega arith, refl)
  created-HandledOnce (err e) c s = respond_error-HandledOnce e c _

  got-HandledOnce :
      (r : Result (Account dec)) (c : Context) (s : Server)
      → HandledOnce (error_of r) c (got r c s).0 s.log (got r c s).1.log
  unfolding got
  got-HandledOnce (ok a) c s = inl (omega arith, refl)
  got-HandledOnce (err e) c s = respond_error-HandledOnce e c s

  -- The error of AccountService.Get, if it is called.
  abbrev read_error : Option ℤ → World → Option GoError
  read_error none w = none
  read_error (some id) w = error_of (Accounts.get id w).0

  get_by_id-HandledOnce :
      (id : Option ℤ) (c : Context) (s : Server)
      → HandledOnce (read_error id s.world) c (get_by_id id c s).0 s.log (get_by_id id c s).1.log
  unfolding get_by_id bad_request
  get_by_id-HandledOnce none c s = inl (omega arith, refl)
  get_by_id-HandledOnce (some id) c s =
      let (r, w) = Accounts.get id s.world in got-HandledOnce r c (record s { world = w })

module _ ⦃dec : Decimal⦄ ⦃uuid : UuidCodec⦄ where
  transferred-HandledOnce :
      (r : Result (Transfer dec)) (c : Context) (s : Server)
      → HandledOnce (error_of r) c (transferred r c s).0 s.log (transferred r c s).1.log
  unfolding transferred
  transferred-HandledOnce (ok t) c s = inl (omega arith, refl)
  transferred-HandledOnce (err e) c s = respond_error-HandledOnce e c _

  -- The error that the service returns to the handler of the call, if it is called.
  abbrev pub service_error : Call → World → Option GoError
  service_error (create_account none) w = none
  service_error (create_account (some req)) w =
      error_of (Accounts.create req.account_id req.initial_balance w).0
  service_error (get_account account_id) w = read_error (parse_int account_id) w
  service_error (post_transaction none key) w = none
  service_error (post_transaction (some req) key) w = error_of (transfer (command req key) w).0

  pub handle-HandledOnce :
      (call : Call) (c : Context) (s : Server)
      → HandledOnce (service_error call s.world) c (handle call c s).0 s.log (handle call c s).1.log
  unfolding handle Handlers.create Handlers.get handle_transfer bad_request
  handle-HandledOnce (create_account none) c s = inl (omega arith, refl)
  handle-HandledOnce (create_account (some req)) c s =
      let (r, w) = Accounts.create req.account_id req.initial_balance s.world in
      created-HandledOnce r c (record s { world = w })
  handle-HandledOnce (get_account account_id) c s = get_by_id-HandledOnce (parse_int account_id) c s
  handle-HandledOnce (post_transaction none key) c s = inl (omega arith, refl)
  handle-HandledOnce (post_transaction (some req) key) c s =
      transferred-HandledOnce (transfer (command req key) s.world).0 c _

  -- Every request to the public server has a reply and one line in the access log, with its status
  -- and the id of the request's header or the fresh one. Before it a reply of 500, and no other, has
  -- left one line, with the same id, method and path, the labels internal and service, and the very
  -- error that the service returned, and the client is told a fixed message only. No other status is
  -- 500 or above.
  pub public_server-logs :
      (fresh : String) (call : Call) (c : Context) (s : Server)
      → (r : Reply dec) × ((public_server fresh call c s).0 ≡ responded r)
        × (log : List LogLine) × HandledOnce
            (service_error call s.world)
            (with_id fresh c)
            r
            s.log
            log
        × ((public_server fresh call c s).2.log
            ≡ request (with_id fresh c).request_id c.method c.path r.status ∷ log)
  unfolding public_server endpoint
  public_server-logs fresh call c s =
      let c' : Context = with_id fresh c in
      let after = handle call c' s in
      (
        after.0,
        public_chain-replies fresh (endpoint call) c s,
        after.1.log,
        handle-HandledOnce call c' s,
        ap (λ (t : Server). t.log) (public_chain-records fresh (endpoint call) c s),
      )
