-- ===== src/Server.antt =====
-- cmd/server/main.go: main, as the sequence of what the process does. The outcomes of the calls into
-- other packages are parameters; os.Exit runs no deferred call.
pub mod Protocol
use transfer_demo.Prelude.{Bool, true, false, List, [], ◌∷◌, ◌++◌, map, String, ℕ, ℤ, if◌then◌else◌}
use transfer_demo.Result.{Result, ok, err, Done}
use transfer_demo.Config.{Config, DbConfig}
use transfer_demo.Platform.Pool.{Pgx, PoolConfig, PoolEvent, closed, new_pool}
use transfer_demo.Platform.Migrate as Migrate
use transfer_demo.Platform.Migrate.{Platform, migrate}

-- The options of server.New. A server starts with its routes and middleware, those of Api.App.
pub record ServerOptions : Type 0 where
  pub host_ports : String
  pub exit_wait_time : ℤ

-- `printed` is a line on standard error, `logged` an entry of the log, by their first words.
pub data Event : Type 0 where
  printed logged : String → Event
  pool : PoolEvent → Event
  migration : Migrate.Event → Event
  sampling_started signalled not_ready public_shut_down admin_shut_down log_closed : Event
  public_started admin_started : ServerOptions → Event
  exited : ℕ → Event

pub record World : Type 0 where
  pub load_config : Result Config
  -- By level and file.
  pub new_logger : String → String → Done
  pub dsn : DbConfig → String
  pub pgx : Pgx
  pub migrations : Platform
  -- The entries of the goroutines whose server stops by itself, before the signal.
  pub run_errors : List String
  pub shut_down_public : Done
  pub shut_down_admin : Done

abbrev pub shutdown_entry : String → Done → List Event
shutdown_entry entry (ok u) = []
shutdown_entry entry (err e) = logged entry ∷ []

-- The deferred calls of a return: the pool's Close, then closeLog.
abbrev pub returned : List Event
returned = pool closed ∷ log_closed ∷ []

abbrev pub drain : World → List Event
drain w =
    not_ready
    ∷ public_shut_down
    ∷ (shutdown_entry "public graceful shutdown failed" w.shut_down_public
        ++ (admin_shut_down
            ∷ (shutdown_entry "admin graceful shutdown failed" w.shut_down_admin
                ++ (logged "servers stopped cleanly" ∷ returned))))

unfoldable pub serve : World → Config → List Event
serve w cfg =
    sampling_started
    ∷ public_started (record { host_ports = cfg.addr; exit_wait_time = cfg.shutdown_timeout })
    ∷ admin_started
        (record { host_ports = cfg.metrics_addr; exit_wait_time = cfg.shutdown_timeout })
    ∷ logged "servers started"
    ∷ (map logged w.run_errors
        ++ (signalled ∷ logged "shutdown signal received, draining" ∷ drain w))

abbrev pub fail : Event → List Event
fail message = message ∷ exited 1 ∷ []

unfoldable pub after_migrations : World → Config → Done → List Event
after_migrations w cfg (ok u) = logged "migrations applied" ∷ serve w cfg
after_migrations w cfg (err e) = fail (logged "run migrations")

unfoldable pub after_pool : World → Config → Result PoolConfig → List Event
after_pool w cfg (ok p) =
    let run = migrate w.migrations in
    if cfg.run_migrations then map migration run.0 ++ after_migrations w cfg run.1 else serve w cfg
after_pool w cfg (err e) = fail (logged "connect database")

unfoldable pub after_logger : World → Config → Done → List Event
after_logger w cfg (ok u) =
    let opening = new_pool w.pgx (w.dsn cfg.database) cfg.database.max_conns true in
    map pool opening.0 ++ after_pool w cfg opening.1
after_logger w cfg (err e) = fail (printed "init logger")

unfoldable pub after_config : World → Result Config → List Event
after_config w (ok cfg) = after_logger w cfg (w.new_logger cfg.log_level cfg.log_file)
after_config w (err e) = fail (printed "load config")

unfoldable pub main : World → List Event
main w = after_config w w.load_config
