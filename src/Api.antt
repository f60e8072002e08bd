-- ===== src/Api.antt =====
-- internal/api/dto.go, and what a handler may change: the database, the metrics and the log.
pub mod Metrics
pub mod Mapping
pub mod Handlers
pub mod Health
pub mod Middleware
pub mod Outcome
pub mod Probes
pub mod Openings
pub mod Routes
pub mod App
use transfer_demo.Prelude.{ℕ, ℤ, String, List, ◌∷◌}
use transfer_demo.Decimal.{Decimal}
use transfer_demo.Domain.{GoError}
use transfer_demo.Action.{World}

module _ (dec : Decimal) where
  pub record CreateAccountRequest : Type 0 where
    pub account_id : ℤ
    pub initial_balance : dec.Value

  pub record AccountResponse : Type 0 where
    pub account_id : ℤ
    pub balance : dec.Value

  pub record TransferRequest : Type 0 where
    pub source_account_id : ℤ
    pub destination_account_id : ℤ
    pub amount : dec.Value

  pub record TransactionResponse : Type 0 where
    pub transaction_id : ℕ
    pub source_account_id : ℤ
    pub destination_account_id : ℤ
    pub amount : dec.Value
    pub status : String

pub record ErrorResponse : Type 0 where
  pub error : String

pub record ReadyResponse : Type 0 where
  pub status : String
  pub checks : List (String × String)

-- `c.JSON(status, …)` of each type, and `c.Status` with no body.
pub data Body (dec : Decimal) : Type 0 where
  no_body : Body dec
  account_body : AccountResponse dec → Body dec
  transaction_body : TransactionResponse dec → Body dec
  error_body : ErrorResponse → Body dec
  ready_body : ReadyResponse → Body dec
  status_body : String → Body dec

pub record Reply (dec : Decimal) : Type 0 where
  pub status : ℕ
  pub body : Body dec

-- How a handler, or the rest of a chain, ends: with a reply, or with a panic and its value.
pub data Ending (dec : Decimal) : Type 0 where
  responded : Reply dec → Ending dec
  panicked : String → Ending dec

-- A counter with its labels, or an observation of a duration.
pub data Metric : Type 0 where
  errors : String → String → Metric
  idempotency_hits : String → Metric
  transfers : String → Metric
  transfer_latency : Metric
  accounts_created : String → Metric
  http_requests : String → String → String → Metric
  http_duration : String → String → Metric

pub data LogLine : Type 0 where
  -- Request id, method and path, then type, layer and error.
  request_failed : String → String → String → String → String → GoError → LogLine
  -- Request id, method, path and the value of the panic.
  panic_recovered : String → String → String → String → LogLine
  -- Request id, method, path and status.
  request : String → String → String → ℕ → LogLine

-- The newest metric and the newest line first.
pub record Server : Type 0 where
  pub world : World
  pub metrics : List Metric
  pub log : List LogLine

abbrev pub count_metric : Metric → Server → Server
count_metric m s = record s { metrics = m ∷ s.metrics }

abbrev pub write_log : LogLine → Server → Server
write_log l s = record s { log = l ∷ s.log }

-- What the middleware and the handlers read and set of a RequestContext, next to the body, the path
-- parameter and the header Idempotency-Key, which are arguments of the handlers.
pub record Context : Type 0 where
  pub method : String
  pub path : String
  pub full_path : String
  pub request_id_header : String
  pub request_id : String
  pub response_request_id : String

abbrev pub Handler : Decimal → Type 0
Handler dec = Context → Server → Reply dec × Server
