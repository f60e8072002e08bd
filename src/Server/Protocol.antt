-- ===== src/Server/Protocol.antt =====
-- The order in which the process goes up and down.
use transfer_demo.Prelude.{
  Bool-cases, inl, inr, ◌≡◌, refl, ap, ◌∙◌, Bool, true, false, not, ◌&&◌, ◌||◌, Option, none, some,
  List, [], ◌∷◌, ◌++◌, map, String, ℤ, if◌then◌else◌,
}
use transfer_demo.Result.{Result, ok, err, Done}
use transfer_demo.Config.{Config}
use transfer_demo.Platform.Pool.{
  PoolConfig, opened, closed, after_ping, after_create, after_parse, new_pool, Pgx, configured,
}
use transfer_demo.Platform.Migrate as Migrate
use transfer_demo.Platform.Migrate.{migrate}
use transfer_demo.Server.{
  Event, printed, logged, pool, migration, sampling_started, signalled, not_ready, public_shut_down,
  admin_shut_down, log_closed, public_started, admin_started, exited, World, shutdown_entry,
  returned, drain, serve, after_migrations, after_pool, after_logger, after_config, main,
}

pub data Stage : Type 0 where
  starting connected public_up serving notified draining public_down all_down disconnected : Stage
  stopped failed : Stage

-- The protocol. A pool that is opened is closed, unless the process exits with status 1; both servers
-- start after the pool and the migrations; readiness is withdrawn after the signal and before either
-- server shuts down, and the pool is closed after both.
abbrev pub follow : Event → Stage → Option Stage
follow (printed line) s = some s
follow (logged entry) s = some s
follow (pool opened) starting = some connected
follow (pool closed) connected = some starting
follow (migration e) connected = some connected
follow sampling_started connected = some connected
follow (public_started options) connected = some public_up
follow (admin_started options) public_up = some serving
follow signalled serving = some notified
follow not_ready notified = some draining
follow public_shut_down draining = some public_down
follow admin_shut_down public_down = some all_down
follow (pool closed) all_down = some disconnected
follow log_closed disconnected = some stopped
follow (exited n) starting = some failed
follow (exited n) connected = some failed
follow e s = none

abbrev pub follow_all : List Event → Option Stage → Option Stage
follow_all es none = none
follow_all [] (some s) = some s
follow_all (e ∷ es) (some s) = follow_all es (follow e s)

abbrev pub is_ok {ℓ} : {A : Type ℓ} → Result A → Bool
is_ok (ok a) = true
is_ok (err e) = false

-- The steps that must succeed before the process serves.
abbrev pub starts : World → Result Config → Bool
starts w (ok cfg) =
    is_ok (w.new_logger cfg.log_level cfg.log_file)
    && is_ok (new_pool w.pgx (w.dsn cfg.database) cfg.database.max_conns true).1
    && (not cfg.run_migrations || is_ok (migrate w.migrations).1)
starts w (err e) = false

abbrev pub last_stage : Bool → Option Stage
last_stage b = if b then some stopped else some failed

follow_all-append :
    (es fs : List Event) (o : Option Stage)
    → follow_all (es ++ fs) o ≡ follow_all fs (follow_all es o)
follow_all-append es fs none = refl
follow_all-append [] fs (some s) = refl
follow_all-append (e ∷ es) fs (some s) = follow_all-append es fs (follow e s)

follow_all-logged :
    (entries : List String) (s : Stage) → follow_all (map logged entries) (some s) ≡ some s
follow_all-logged [] s = refl
follow_all-logged (x ∷ entries) s = follow_all-logged entries s

follow_all-migration :
    (es : List Migrate.Event) → follow_all (map migration es) (some connected) ≡ some connected
follow_all-migration [] = refl
follow_all-migration (e ∷ es) = follow_all-migration es

follow_all-shutdown_entry :
    (entry : String) (d : Done) (s : Stage) → follow_all (shutdown_entry entry d) (some s) ≡ some s
follow_all-shutdown_entry entry (ok u) s = refl
follow_all-shutdown_entry entry (err e) s = refl

-- Events that leave the stage as it is, and others.
follow_all-after :
    (es fs : List Event) (s t : Stage)
    → follow_all es (some s) ≡ some t
    → follow_all (es ++ fs) (some s) ≡ follow_all fs (some t)
follow_all-after es fs s t h = follow_all-append es fs (some s) ∙ ap (λ o. follow_all fs o) h

drain-follow : (w : World) → follow_all (drain w) (some notified) ≡ some stopped
drain-follow w =
    follow_all-after (shutdown_entry "public graceful shutdown failed" w.shut_down_public)
      (admin_shut_down
        ∷ (shutdown_entry "admin graceful shutdown failed" w.shut_down_admin
            ++ (logged "servers stopped cleanly" ∷ returned)))
      public_down public_down
      (follow_all-shutdown_entry "public graceful shutdown failed" w.shut_down_public public_down)
    ∙ follow_all-after (shutdown_entry "admin graceful shutdown failed" w.shut_down_admin)
        (logged "servers stopped cleanly" ∷ returned) all_down all_down
        (follow_all-shutdown_entry "admin graceful shutdown failed" w.shut_down_admin all_down)

serve-follow : (w : World) (cfg : Config) → follow_all (serve w cfg) (some connected) ≡ some stopped
unfolding serve
serve-follow w cfg =
    follow_all-after (map logged w.run_errors)
      (signalled ∷ logged "shutdown signal received, draining" ∷ drain w) serving serving
      (follow_all-logged w.run_errors serving)
    ∙ drain-follow w

after_migrations-follow :
    (w : World) (cfg : Config) (d : Done)
    → follow_all (after_migrations w cfg d) (some connected) ≡ last_stage (is_ok d)
unfolding after_migrations
after_migrations-follow w cfg (ok u) = serve-follow w cfg
after_migrations-follow w cfg (err e) = refl

-- The stage after NewPool.
abbrev after_opening : Bool → Stage
after_opening b = if b then connected else starting

new_pool-follow :
    (pgx : Pgx) (dsn : String) (max_conns : ℤ) (with_tracer : Bool)
    → let opening = new_pool pgx dsn max_conns with_tracer in
      follow_all (map pool opening.0) (some starting) ≡ some (after_opening (is_ok opening.1))
unfolding new_pool
new_pool-follow pgx dsn max_conns with_tracer = go (pgx.parse_config dsn)
  where
    after_ping-follow :
        (cfg : PoolConfig) (d : Done)
        → follow_all (map pool (after_ping cfg d).0) (some starting)
          ≡ some (after_opening (is_ok (after_ping cfg d).1))
    after_ping-follow cfg (ok u) = refl
    after_ping-follow cfg (err e) = refl

    after_create-follow :
        (cfg : PoolConfig) (d : Done)
        → follow_all (map pool (after_create pgx cfg d).0) (some starting)
          ≡ some (after_opening (is_ok (after_create pgx cfg d).1))
    after_create-follow cfg (ok u) = after_ping-follow cfg (pgx.ping cfg)
    after_create-follow cfg (err e) = refl

    go :
        (r : Result PoolConfig)
        → follow_all (map pool (after_parse pgx max_conns with_tracer r).0) (some starting)
          ≡ some (after_opening (is_ok (after_parse pgx max_conns with_tracer r).1))
    go (ok cfg) =
        let set = configured max_conns with_tracer cfg in
        after_create-follow set (pgx.new_with_config set)
    go (err e) = refl

after_pool-follow :
    (w : World) (cfg : Config) (r : Result PoolConfig)
    → follow_all (after_pool w cfg r) (some (after_opening (is_ok r)))
      ≡ last_stage (is_ok r && (not cfg.run_migrations || is_ok (migrate w.migrations).1))
unfolding after_pool after_migrations serve
after_pool-follow w cfg (err e) = refl
after_pool-follow w cfg (ok p) = elim (Bool-cases cfg.run_migrations) [
  | inl h ↦ rw h (
      follow_all-after (map migration (migrate w.migrations).0)
        (after_migrations w cfg (migrate w.migrations).1) connected connected
        (follow_all-migration (migrate w.migrations).0)
      ∙ after_migrations-follow w cfg (migrate w.migrations).1)
  | inr h ↦ rw h (serve-follow w cfg)
]

after_logger-follow :
    (w : World) (cfg : Config) (d : Done)
    → follow_all (after_logger w cfg d) (some starting)
      ≡ last_stage (
          is_ok d
          && is_ok (new_pool w.pgx (w.dsn cfg.database) cfg.database.max_conns true).1
          && (not cfg.run_migrations || is_ok (migrate w.migrations).1))
unfolding after_logger
after_logger-follow w cfg (err e) = refl
after_logger-follow w cfg (ok u) =
    let opening = new_pool w.pgx (w.dsn cfg.database) cfg.database.max_conns true in
    follow_all-after (map pool opening.0) (after_pool w cfg opening.1) starting
      (after_opening (is_ok opening.1))
      (new_pool-follow w.pgx (w.dsn cfg.database) cfg.database.max_conns true)
    ∙ after_pool-follow w cfg opening.1

after_config-follow :
    (w : World) (r : Result Config)
    → follow_all (after_config w r) (some starting) ≡ last_stage (starts w r)
unfolding after_config
after_config-follow w (ok cfg) = after_logger-follow w cfg (w.new_logger cfg.log_level cfg.log_file)
after_config-follow w (err e) = refl

-- Whatever the outcomes of the calls, the process keeps the protocol. Where the configuration, the
-- logger, the pool and, if they are asked for, the migrations succeed, it serves and returns after an
-- orderly shutdown; otherwise it exits with a status before any server starts.
pub main-follow :
    (w : World) → follow_all (main w) (some starting) ≡ last_stage (starts w w.load_config)
unfolding main
main-follow w = after_config-follow w w.load_config
