-- ===== src/Api/Routes.antt =====
-- internal/api/router.go: which handler each server mounts on which route, and behind which
-- middleware. Matching a request with a route is the framework's.
use transfer_demo.Prelude.{List, [], ◌∷◌, String}
use transfer_demo.Decimal.{Decimal}
use transfer_demo.Api.Middleware.{Chain, recover}

pub data Endpoint : Type 0 where
  account_create account_get transaction_transfer health_livez health_readyz metrics : Endpoint

pub record Route : Type 0 where
  pub method : String
  pub path : String
  pub endpoint : Endpoint

abbrev route : String → String → Endpoint → Route
route method path endpoint = record { method = method; path = path; endpoint = endpoint }

abbrev pub public_routes : List Route
public_routes =
    route "POST" "/accounts" account_create
    ∷ route "GET" "/accounts/:account_id" account_get
    ∷ route "POST" "/transactions" transaction_transfer
    ∷ []

abbrev pub admin_routes : List Route
admin_routes =
    route "GET" "/livez" health_livez
    ∷ route "GET" "/readyz" health_readyz
    ∷ route "GET" "/metrics" metrics
    ∷ []

module _ ⦃dec : Decimal⦄ where
  -- RegisterAdminRoutes mounts no request id and no observation.
  abbrev pub admin_chain : Chain → Chain
  admin_chain next = recover next
