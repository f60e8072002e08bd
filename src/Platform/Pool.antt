-- ===== src/Platform/Pool.antt =====
-- internal/platform/postgres/db.go: NewPool. Durations are in seconds. The calls of pgxpool are
-- parameters, which succeed or fail.
use transfer_demo.Prelude.{Bool, true, List, [], ◌∷◌, String, ℕ, ◌*◌, ℤ, if◌then◌else◌}
use transfer_demo.Domain.{wrap}
use transfer_demo.Result.{Result, ok, err, Done}

-- `*pgxpool.Config`, as far as NewPool sets it; `tracer` says whether a tracer is installed, and
-- `decimals` whether new connections learn NUMERIC.
pub record PoolConfig : Type 0 where
  pub max_conns : ℤ
  pub max_conn_lifetime : ℕ
  pub max_conn_idle_time : ℕ
  pub tracer : Bool
  pub decimals : Bool

pub data PoolEvent : Type 0 where
  opened closed : PoolEvent

pub record Pgx : Type 0 where
  pub parse_config : String → Result PoolConfig
  pub new_with_config : PoolConfig → Done
  pub ping : PoolConfig → Done

abbrev pub configured : ℤ → Bool → PoolConfig → PoolConfig
configured max_conns with_tracer cfg = record cfg {
  max_conns = max_conns;
  max_conn_lifetime = 60 * 60;
  max_conn_idle_time = 30 * 60;
  tracer = if with_tracer then true else cfg.tracer;
  decimals = true;
}

-- A pool that does not answer is closed.
abbrev pub after_ping : PoolConfig → Done → List PoolEvent × Result PoolConfig
after_ping cfg (ok u) = (opened ∷ [], ok cfg)
after_ping cfg (err e) = (opened ∷ closed ∷ [], err (wrap "ping" e))

abbrev pub after_create : Pgx → PoolConfig → Done → List PoolEvent × Result PoolConfig
after_create pgx cfg (ok u) = after_ping cfg (pgx.ping cfg)
after_create pgx cfg (err e) = ([], err (wrap "create pool" e))

abbrev pub after_parse : Pgx → ℤ → Bool → Result PoolConfig → List PoolEvent × Result PoolConfig
after_parse pgx max_conns with_tracer (ok cfg) =
    let set = configured max_conns with_tracer cfg in after_create pgx set (pgx.new_with_config set)
after_parse pgx max_conns with_tracer (err e) = ([], err (wrap "parse dsn" e))

unfoldable pub new_pool : Pgx → String → ℤ → Bool → List PoolEvent × Result PoolConfig
new_pool pgx dsn max_conns with_tracer =
    after_parse pgx max_conns with_tracer (pgx.parse_config dsn)
