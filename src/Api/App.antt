-- ===== src/Api/App.antt =====
-- The two servers that cmd/server/main.go wires together: the handlers of router.go over the services
-- and repositories, behind the middleware. A request comes with what the framework has read of it:
-- its context, its body or path parameter, and the Idempotency-Key header.
pub mod Soundness
pub mod Audited
pub mod Answers
pub mod ReadsBack
pub mod Repeats
pub mod Logging
pub mod Counting
use transfer_demo.Api.{
  Ending, responded, CreateAccountRequest, TransferRequest, Context, Server, Reply, Handler,
}
use transfer_demo.Api.Health.{HealthHandler, livez, readyz}
use transfer_demo.Api.Routes.{admin_chain}
use transfer_demo.Prelude.{Bool, Option, some, List, [], ◌∷◌, String}
use transfer_demo.Decimal.{Decimal}
use transfer_demo.Uuid.{UuidCodec}
use transfer_demo.Action.{Event}
use transfer_demo.Api.Handlers as Handlers
use transfer_demo.Api.Middleware.{Chain, public_chain}

module _ ⦃dec : Decimal⦄ where
  -- By the route that the framework has matched; a body or a parameter that it could not read is
  -- `none`.
  pub data Call : Type 0 where
    create_account : Option (CreateAccountRequest dec) → Call
    get_account : String → Call
    post_transaction : Option (TransferRequest dec) → String → Call

module _ ⦃dec : Decimal⦄ ⦃uuid : UuidCodec⦄ where
  unfoldable pub handle : Call → Handler dec
  handle (create_account body) = Handlers.create body
  handle (get_account account_id) = Handlers.get account_id
  handle (post_transaction body key) = Handlers.handle_transfer body key

  -- A handler at the end of the chain.
  unfoldable pub endpoint : Call → Chain
  unfolding handle
  endpoint call c s = let (r, s') = handle call c s in (responded r, c, s')

  unfoldable pub public_server : String → Call → Chain
  unfolding endpoint
  public_server fresh call = public_chain fresh (endpoint call)

  -- A request that arrives, with the id that would be made up for it and with what the surroundings
  -- do while it is served.
  pub record Arrival : Type 0 where
    pub context : Context
    pub fresh : String
    pub call : Call
    pub events : List Event

  unfoldable pub serve : Arrival → Server → Ending dec × Context × Server
  unfolding public_server
  serve a s =
      public_server a.fresh a.call a.context
        (record s { world = record { db = s.world.db; events = a.events } })

  -- One request after another: the replies, and the server at the end.
  unfoldable pub serve_all : List Arrival → Server → List (Ending dec) × Server
  unfolding serve
  serve_all [] s = ([], s)
  serve_all (a ∷ arrivals) s =
      let (reply, c, s') = serve a s in
      let (replies, last) = serve_all arrivals s' in (reply ∷ replies, last)

  -- GET /livez, GET /readyz with whether the pool's Ping fails, and GET /metrics.
  pub data AdminCall : Type 0 where
    get_livez : AdminCall
    get_readyz : Bool → AdminCall
    get_metrics : AdminCall

  -- The handler of promhttp is a parameter.
  unfoldable pub admin_endpoint : Chain → HealthHandler → AdminCall → Chain
  admin_endpoint promhttp h get_livez c s = (responded (livez h), c, s)
  admin_endpoint promhttp h (get_readyz ping_fails) c s = (responded (readyz h ping_fails), c, s)
  admin_endpoint promhttp h get_metrics c s = promhttp c s

  unfoldable pub admin_server : Chain → HealthHandler → AdminCall → Chain
  unfolding admin_endpoint
  admin_server promhttp h call = admin_chain (admin_endpoint promhttp h call)
