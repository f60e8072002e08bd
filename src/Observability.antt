-- ===== src/Observability.antt =====
-- internal/observability: NewMetrics and the collectors it registers, SamplePool, and NewLogger. The
-- Prometheus registry is modelled by the names it holds; log levels and files are parameters.
pub mod Registry
pub mod Sampling
use transfer_demo.Prelude.{
  ℕ, Bool, true, false, ◌||◌, Option, none, some, List, [], ◌∷◌, String, if◌then◌else◌,
}
use transfer_demo.Platform.Tracer.{text, same_text}
use transfer_demo.Domain.{GoError}
use transfer_demo.Result.{Result, ok, err, Done}

pub data Kind : Type 0 where
  counter histogram gauge : Kind

-- The bounds of a histogram: the package's DefBuckets, or a list of its own in units of 0.0001 s.
pub data Buckets : Type 0 where
  no_buckets def_buckets : Buckets
  ten_thousandths : List ℕ → Buckets

pub record Collector : Type 0 where
  pub kind : Kind
  pub name : String
  pub help : String
  pub buckets : Buckets
  pub labels : List String

-- The fields of `Metrics`.
pub data Field : Type 0 where
  http_requests http_duration transfers transfer_latency accounts_created : Field
  idempotency_hits errors db_total_conns db_idle_conns db_acquired_conns : Field
  db_query_duration : Field

abbrev pub metric_fields : List Field
metric_fields =
    http_requests ∷ http_duration ∷ transfers ∷ transfer_latency ∷ accounts_created
    ∷ idempotency_hits ∷ errors ∷ db_total_conns ∷ db_idle_conns ∷ db_acquired_conns
    ∷ db_query_duration ∷ []

abbrev pub new_counter_vec : String → String → List String → Collector
new_counter_vec name help labels = record {
  kind = counter;
  name = name;
  help = help;
  buckets = no_buckets;
  labels = labels;
}

abbrev pub new_histogram_vec : String → String → Buckets → List String → Collector
new_histogram_vec name help buckets labels = record {
  kind = histogram;
  name = name;
  help = help;
  buckets = buckets;
  labels = labels;
}

abbrev pub new_gauge : String → String → Collector
new_gauge name help = record {
  kind = gauge;
  name = name;
  help = help;
  buckets = no_buckets;
  labels = [];
}

abbrev pub query_buckets : Buckets
query_buckets =
    ten_thousandths (5 ∷ 10 ∷ 25 ∷ 50 ∷ 100 ∷ 250 ∷ 500 ∷ 1000 ∷ 2500 ∷ 5000 ∷ 10000 ∷ 25000 ∷ [])

abbrev pub collector : Field → Collector
collector http_requests =
    new_counter_vec "http_requests_total" "Total HTTP requests."
      ("route" ∷ "method" ∷ "status" ∷ [])
collector http_duration =
    new_histogram_vec "http_request_duration_seconds" "HTTP request latency." def_buckets
      ("route" ∷ "method" ∷ [])
collector transfers = new_counter_vec "transfers_total" "Total transfers by status." ("status" ∷ [])
collector transfer_latency =
    new_histogram_vec "transfer_processing_duration_seconds"
      "Transfer processing latency, including lock wait." def_buckets []
collector accounts_created =
    new_counter_vec "accounts_created_total" "Total account creation attempts by result."
      ("result" ∷ [])
collector idempotency_hits =
    new_counter_vec "idempotency_requests_total" "Transfer requests by idempotency outcome."
      ("result" ∷ [])
collector errors =
    new_counter_vec "transfers_errors_total" "Caught errors by type and layer."
      ("type" ∷ "layer" ∷ [])
collector db_total_conns = new_gauge "db_pool_total_conns" "Total connections in the pool."
collector db_idle_conns = new_gauge "db_pool_idle_conns" "Idle connections in the pool."
collector db_acquired_conns =
    new_gauge "db_pool_acquired_conns" "Acquired (in-use) connections in the pool."
collector db_query_duration =
    new_histogram_vec "db_query_duration_seconds" "Database query latency by operation."
      query_buckets ("operation" ∷ [])

abbrev pub is_registered : String → List Collector → Bool
is_registered name [] = false
is_registered name (c ∷ cs) =
    let rest = is_registered name cs in same_text (text name) (text c.name) || rest

-- MustRegister, which panics on a name that is taken: `none`.
abbrev pub register : Collector → List Collector → Option (List Collector)
register c cs = if is_registered c.name cs then none else some (c ∷ cs)

abbrev pub register_all : List Field → Option (List Collector) → Option (List Collector)
register_all fs none = none
register_all [] (some cs) = some cs
register_all (f ∷ fs) (some cs) = register_all fs (register (collector f) cs)

unfoldable pub new_metrics : List Collector → Option (List Collector)
new_metrics registry = register_all metric_fields (some registry)

-- The collector of a name.
abbrev pub find_collector : String → List Collector → Option Collector
find_collector name [] = none
find_collector name (c ∷ cs) =
    let rest = find_collector name cs in
    if same_text (text name) (text c.name) then some c else rest

-- A call of Inc or Observe: the collector, and the arguments of WithLabelValues.
pub record Sample : Type 0 where
  pub field : Field
  pub values : List String

-- SamplePool: what the loop's `select` receives, in order.
pub record PoolStat : Type 0 where
  pub total_conns : ℕ
  pub idle_conns : ℕ
  pub acquired_conns : ℕ

pub data Wakeup : Type 0 where
  cancelled : Wakeup
  tick : PoolStat → Wakeup

pub record Gauges : Type 0 where
  pub total : ℕ
  pub idle : ℕ
  pub acquired : ℕ

abbrev pub set_gauges : PoolStat → Gauges → Gauges
set_gauges stat g = record {
  total = stat.total_conns;
  idle = stat.idle_conns;
  acquired = stat.acquired_conns;
}

unfoldable pub sample_pool : List Wakeup → Gauges → Gauges
sample_pool [] g = g
sample_pool (cancelled ∷ ws) g = g
sample_pool (tick stat ∷ ws) g = sample_pool ws (set_gauges stat g)

-- NewLogger: where the entries go, and the file that the closer closes.
pub record Logger (Level : Type 0) : Type 0 where
  pub level : Level
  pub file : Option String

abbrev pub level_or_info {ℓ} : {Level : Type ℓ} → Level → Result Level → Level
level_or_info info (ok level) = level
level_or_info info (err e) = info

abbrev pub opened_logger : {Level : Type 0} → Level → String → Done → Result (Logger Level)
opened_logger level log_file (ok u) = ok (record { level = level; file = some log_file })
opened_logger level log_file (err e) = err e

-- `unmarshal` is the level's UnmarshalText, and `open_file` the outcome of os.OpenFile.
abbrev pub new_logger :
    {Level : Type 0} (info : Level) (unmarshal : String → Result Level) (open_file : String → Done)
    → String
    → String
    → Result (Logger Level)
new_logger info unmarshal open_file level log_file =
    let lvl = level_or_info info (unmarshal level) in
    if same_text (text log_file) []
    then ok (record { level = lvl; file = none })
    else opened_logger lvl log_file (open_file log_file)
