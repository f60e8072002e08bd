-- ===== src/Api/Probes.antt =====
-- What the probes of health_handler.go and the chain of router.go answer.
use transfer_demo.Api.{
  Ending, responded, panicked, Context, Server, Reply, error_body, Metric, panic_recovered, request,
}
use text.Mathlib.Text.{◌==◌}
use transfer_demo.Prelude.{if◌then◌else◌, ◌≡◌, refl, ◌↔◌, Bool, false, String, ◌∷◌, arith}
use transfer_demo.Decimal.{Decimal}
use transfer_demo.Api.Health.{HealthHandler, set_not_ready, readyz}
use transfer_demo.Api.Middleware.{
  Chain, request_id, observe, observed, recover, recovered, public_chain, route_of, status_class,
}

module _ ⦃dec : Decimal⦄ where
  -- Readyz replies 200 exactly when the service is not shutting down and the database answers the
  -- ping. After SetNotReady it replies 503 whatever the ping says.
  pub readyz_iff :
      (h : HealthHandler) (ping_fails : Bool)
      → (((readyz h ping_fails).status ≡ 200) ↔ ((h.shutting_down ≡ false) × (ping_fails ≡ false)))
        × ((readyz (set_not_ready h) ping_fails).status ≡ 503)
  unfolding readyz set_not_ready
  readyz_iff h ping_fails = ground arith

  abbrev pub or_internal : Ending dec → Reply dec
  or_internal (responded r) = r
  or_internal (panicked v) = record {
    status = 500;
    body = error_body (record { error = "internal server error" });
  }

  guarded :
      (path : String) (c : Context) (r : Ending dec) (s : Server)
      → (let (r', c', s') = observed path r c s in recovered r' c' s').0 ≡ responded (or_internal r)
  unfolding observed recovered
  guarded path c (panicked v) s = refl
  guarded path c (responded r) s = refl

  -- The id of the request's header, or the fresh one.
  abbrev pub with_id : String → Context → Context
  with_id fresh c =
      let id : String = if c.request_id_header == "" then fresh else c.request_id_header in
      record c { request_id = id; response_request_id = id }

  -- Behind the middleware of the public routes every request has a reply: that of its handler, which
  -- sees the id of the request's header or the fresh one, and 500 with a fixed message if the
  -- handler panics.
  pub public_chain-replies :
      (fresh : String) (next : Chain) (c : Context) (s : Server)
      → (public_chain fresh next c s).0 ≡ responded (or_internal (next (with_id fresh c) s).0)
  unfolding public_chain recover request_id observe
  public_chain-replies fresh next c s =
      let after = next (with_id fresh c) s in guarded c.path after.1 after.0 after.2

  -- What a request adds to the metrics and the log, by its reply and the context it ends with.
  abbrev pub recorded : String → Ending dec → Context → Server → Server
  recorded path (responded r) c s = record s {
    metrics =
        Metric.http_duration (route_of c) c.method
        ∷ Metric.http_requests (route_of c) c.method (status_class r.status)
        ∷ s.metrics;
    log = request c.request_id c.method path r.status ∷ s.log;
  }
  recorded path (panicked v) c s = record s {
    metrics = Metric.errors "panic_recovered" "middleware" ∷ s.metrics;
    log = panic_recovered c.request_id c.method c.path v ∷ s.log;
  }

  observed-recorded :
      (path : String) (c : Context) (r : Ending dec) (s : Server)
      → (let (r', c', s') = observed path r c s in recovered r' c' s').2 ≡ recorded path r c s
  unfolding observed recovered
  observed-recorded path c (panicked v) s = refl
  observed-recorded path c (responded r) s = refl

  -- Behind the middleware of the public routes a request that its handler answers is counted once in
  -- each of the two HTTP metrics and has one line in the log; a request whose handler panics is
  -- counted in neither, but once among the errors, with the line of the panic.
  pub public_chain-records :
      (fresh : String) (next : Chain) (c : Context) (s : Server)
      → let (r, c', s') = next (with_id fresh c) s in
        (public_chain fresh next c s).2 ≡ recorded c.path r c' s'
  unfolding public_chain recover request_id observe
  public_chain-records fresh next c s =
      let after = next (with_id fresh c) s in observed-recorded c.path after.1 after.0 after.2
