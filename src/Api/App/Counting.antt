-- ===== src/Api/App/Counting.antt =====
-- What the requests of the public server leave in the metrics.
pub mod Sequence
use text.Mathlib.Text.{◌==◌}
use transfer_demo.Prelude.{
  ℕ, ◌+◌, ◌≡◌, ◌≤◌, ◌≢◌, refl, ap, sym, ◌∙◌, inl, inr, Bool, true, false, none, some, List, [], ◌∷◌,
  String, arith, ℤ, Option, leb, ◌&&◌, if◌then◌else◌, Bool-cases,
}
use transfer_demo.Decimal.{Decimal}
use transfer_demo.Uuid.{UuidCodec}
use transfer_demo.Domain.{GoError, Account, Transfer}
use transfer_demo.Result.{Result, Done, ok, err}
use transfer_demo.Api.{Context, Metric, Server, Reply, CreateAccountRequest, TransferRequest}
use transfer_demo.Api.Outcome.{refusing, respond_error-status}
use transfer_demo.Api.Mapping.{error_mapping, respond_error, bad_request}
use transfer_demo.Api.Handlers as Handlers
use transfer_demo.Service.Accounts
use transfer_demo.Service.Transfers.{transfer}
use transfer_demo.Api.Handlers.{command, created, got, get_by_id, transferred, handle_transfer}
use transfer_demo.Api.App.{Call, create_account, get_account, post_transaction, handle}

abbrev pub count : (Metric → Bool) → List Metric → ℕ
count test [] = 0
count test (m ∷ ms) = let rest = count test ms in if test m then rest + 1 else rest

abbrev pub is_error : Metric → Bool
is_error (Metric.errors type layer) = true
is_error _ = false

abbrev pub is_request : Metric → Bool
is_request (Metric.http_requests route method class) = true
is_request _ = false

abbrev pub is_completed : Metric → Bool
is_completed (Metric.transfers result) = result == "completed"
is_completed _ = false

abbrev pub is_failed : Metric → Bool
is_failed (Metric.transfers result) = result == "failed"
is_failed _ = false

abbrev pub is_opened : Metric → Bool
is_opened (Metric.accounts_created result) = result == "ok"
is_opened _ = false

abbrev pub one_if : Bool → ℕ
one_if true = 1
one_if false = 0

module _ ⦃dec : Decimal⦄ where
  abbrev is_status : ℕ → Reply dec → Bool
  is_status n r = leb n r.status && leb r.status n

  abbrev pub refusal : Reply dec → ℕ
  refusal r = one_if (leb 400 r.status)

  abbrev pub opening : Call → Reply dec → ℕ
  opening (create_account body) r = one_if (is_status 201 r)
  opening (get_account account_id) r = 0
  opening (post_transaction body key) r = 0

  -- A transfer was asked for, and has completed.
  abbrev pub completion : Call → Reply dec → ℕ
  completion (create_account body) r = 0
  completion (get_account account_id) r = 0
  completion (post_transaction body key) r = one_if (is_status 200 r)

  -- A transfer was asked for by a body that could be read, and has failed.
  abbrev pub failure : Call → Reply dec → ℕ
  failure (create_account body) r = 0
  failure (get_account account_id) r = 0
  failure (post_transaction none key) r = 0
  failure (post_transaction (some req) key) r = refusal r

  abbrev pub Counted : ℕ → Call → Reply dec → List Metric → List Metric → Type 0
  Counted requests call r ms ms' =
      (count is_request ms' ≡ count is_request ms + requests)
      × (count is_error ms' ≡ count is_error ms + refusal r)
      × (count is_completed ms' ≡ count is_completed ms + completion call r)
      × (count is_failed ms' ≡ count is_failed ms + failure call r)
      × (count is_opened ms' ≡ count is_opened ms + opening call r)

module _ ⦃dec : Decimal⦄ where
  respond_error-metrics :
      (layer : String) (e : GoError) (c : Context) (s : Server)
      → (respond_error layer e c s).1.metrics ≡ Metric.errors (error_mapping e).1 layer ∷ s.metrics
  unfolding respond_error
  respond_error-metrics layer e c s = ground arith

  -- A readable POST /transactions.
  abbrev attempt : Call → ℕ
  attempt (create_account body) = 0
  attempt (get_account account_id) = 0
  attempt (post_transaction none key) = 0
  attempt (post_transaction (some req) key) = 1

  refused :
      (call : Call) (r : Reply dec)
      → 400 ≤ r.status
      → (refusal r ≡ 1)
        × (completion call r ≡ 0)
        × (failure call r ≡ attempt call)
        × (opening call r ≡ 0)
  refused (create_account body) r h = ground (arith, h)
  refused (get_account account_id) r h = ground (arith, h)
  refused (post_transaction none key) r h = ground (arith, h)
  refused (post_transaction (some req) key) r h = ground (arith, h)

  -- After the metrics `ms`, of which the handler has already counted the attempt.
  respond_error-Counted :
      (call : Call) (layer : String) (e : GoError) (c : Context) (s : Server) (ms : List Metric)
      → count is_request s.metrics ≡ count is_request ms
      → count is_error s.metrics ≡ count is_error ms
      → count is_completed s.metrics ≡ count is_completed ms
      → count is_failed s.metrics ≡ count is_failed ms + attempt call
      → count is_opened s.metrics ≡ count is_opened ms
      → Counted 0 call (respond_error layer e c s).0 ms (respond_error layer e c s).1.metrics
  respond_error-Counted call layer e c s ms requests errors completed failed opened =
      let high : 400 ≤ (respond_error layer e c s).0.status =
        rw respond_error-status (refusing e) in
      let (one, nothing_done, tried, nothing_opened) =
        refused call (respond_error layer e c s).0 high in
      rw (respond_error-metrics, one, nothing_done, tried, nothing_opened)
        (
          omega (arith, requests),
          omega (arith, errors),
          omega (arith, completed),
          failed,
          omega (arith, opened),
        )

  created-Counted :
      (body : Option (CreateAccountRequest dec)) (r : Done) (c : Context) (s : Server)
      → Counted 0 (create_account body) (created r c s).0 s.metrics (created r c s).1.metrics
  unfolding created
  created-Counted body (ok u) c s = omega arith
  created-Counted body (err e) c s =
      respond_error-Counted (create_account body) "service" e c _ s.metrics refl refl refl
        (omega arith) refl

  got-Counted :
      (account_id : String) (r : Result (Account dec)) (c : Context) (s : Server)
      → Counted 0 (get_account account_id) (got r c s).0 s.metrics (got r c s).1.metrics
  unfolding got
  got-Counted account_id (ok a) c s = omega arith
  got-Counted account_id (err e) c s =
      respond_error-Counted (get_account account_id) "service" e c s s.metrics refl refl refl
        (omega arith) refl

  get_by_id-Counted :
      (account_id : String) (id : Option ℤ) (c : Context) (s : Server)
      → Counted 0
          (get_account account_id)
          (get_by_id id c s).0
          s.metrics
          (get_by_id id c s).1.metrics
  unfolding get_by_id bad_request
  get_by_id-Counted account_id none c s = omega arith
  get_by_id-Counted account_id (some id) c s =
      let (r, w) = Accounts.get id s.world in got-Counted account_id r c (record s { world = w })

module _ ⦃dec : Decimal⦄ ⦃uuid : UuidCodec⦄ where
  transferred-Counted :
      (req : TransferRequest dec) (key : String) (r : Result (Transfer dec)) (c : Context)
      (s : Server)
      → Counted 0
          (post_transaction (some req) key)
          (transferred r c s).0
          s.metrics
          (transferred r c s).1.metrics
  unfolding transferred
  transferred-Counted req key (ok t) c s = omega arith
  transferred-Counted req key (err e) c s =
      respond_error-Counted (post_transaction (some req) key) "service" e c _ s.metrics refl refl
        refl refl refl

  pub handle-Counted :
      (call : Call) (c : Context) (s : Server)
      → Counted 0 call (handle call c s).0 s.metrics (handle call c s).1.metrics
  unfolding handle Handlers.create Handlers.get handle_transfer bad_request
  handle-Counted (create_account none) c s = omega arith
  handle-Counted (create_account (some req)) c s =
      let (r, w) = Accounts.create req.account_id req.initial_balance s.world in
      created-Counted (some req) r c (record s { world = w })
  handle-Counted (get_account account_id) c s = get_by_id-Counted account_id _ c s
  handle-Counted (post_transaction none key) c s = omega arith
  handle-Counted (post_transaction (some req) key) c s =
      let (r, w) = transfer (command req key) s.world in transferred-Counted req key r c _
