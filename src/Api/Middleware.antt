-- ===== src/Api/Middleware.antt =====
-- internal/api/middleware.go and the chain that router.go mounts.
use transfer_demo.Api.{
  Ending, responded, panicked, Context, Metric, panic_recovered, request, Server, error_body,
  count_metric, write_log,
}
use text.Mathlib.Text.{◌==◌}
use transfer_demo.Prelude.{ℕ, String, leb, if◌then◌else◌}
use transfer_demo.Decimal.{Decimal}

unfoldable pub status_class : ℕ → String
status_class code =
    if leb 500 code
    then "5xx"
    else if leb 400 code
    then "4xx"
    else if leb 300 code
    then "3xx"
    else if leb 200 code
    then "2xx"
    else "other"

module _ ⦃dec : Decimal⦄ where
  -- What the rest of the chain does: a reply, or a panic, with the context as it leaves it.
  abbrev pub Chain : Type 0
  Chain = Context → Server → Ending dec × Context × Server

  -- `fresh` is what `uuid.NewString` returns.
  unfoldable pub request_id : String → Chain → Chain
  request_id fresh next c =
      let id : String = if c.request_id_header == "" then fresh else c.request_id_header in
      next (record c { request_id = id; response_request_id = id })

  abbrev pub route_of : Context → String
  route_of c = if c.full_path == "" then "unmatched" else c.full_path

  -- A panic of the handler skips what follows `c.Next`. The path is read before it.
  unfoldable pub observed : String → Ending dec → Context → Server → Ending dec × Context × Server
  observed path (panicked v) c s = (panicked v, c, s)
  observed path (responded r) c s = (
    responded r,
    c,
    write_log (request c.request_id c.method path r.status) (
        count_metric (Metric.http_duration (route_of c) c.method)
          (count_metric (Metric.http_requests (route_of c) c.method (status_class r.status)) s)),
  )

  unfoldable pub observe : Chain → Chain
  unfolding observed
  observe next c s = let (r, c', s') = next c s in observed c.path r c' s'

  unfoldable pub recovered : Ending dec → Context → Server → Ending dec × Context × Server
  recovered (responded r) c s = (responded r, c, s)
  recovered (panicked v) c s = (
    responded
        (record { status = 500; body = error_body (record { error = "internal server error" }) }),
    c,
    write_log (panic_recovered c.request_id c.method c.path v)
        (count_metric (Metric.errors "panic_recovered" "middleware") s),
  )

  unfoldable pub recover : Chain → Chain
  unfolding recovered
  recover next c s = let (r, c', s') = next c s in recovered r c' s'

  -- The order of `h.Use` in RegisterPublicRoutes.
  unfoldable pub public_chain : String → Chain → Chain
  public_chain fresh next = recover (request_id fresh (observe next))
