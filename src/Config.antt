-- ===== src/Config.antt =====
-- internal/config/config.go: Load. Viper and the process environment are parameters; a duration is
-- a number of nanoseconds, an int64.
pub mod Load
pub mod Dsn
use Prim.Native.Nat.{◌%◌}
use transfer_demo.Prelude.{
  ℕ, Bool, true, false, ◌&&◌, ◌||◌, Option, none, some, List, [], ◌∷◌, String, ℤ, pos, negsuc, ◌+◌,
  ◌-◌, ◌*◌, ◌^◌, ltb, eq_ℤ, leb_ℤ, if◌then◌else◌, not,
}
use transfer_demo.Platform.Tracer.{text, same_text}
use transfer_demo.Domain.{GoError, wrap, other}
use transfer_demo.Result.{Result, ok, err}

pub record DbConfig : Type 0 where
  pub host : String
  pub port : ℤ
  pub user : String
  pub password : String
  pub dbname : String
  pub sslmode : String
  pub max_conns : ℤ

pub record Config : Type 0 where
  pub addr : String
  pub metrics_addr : String
  pub database : DbConfig
  pub shutdown_timeout : ℤ
  pub run_migrations : Bool
  pub log_level : String
  pub log_file : String

pub data Value : Type 0 where
  string : String → Value
  int : ℕ → Value
  bool : Bool → Value

-- A `viper.Viper` with its methods.
pub record Viper : Type 1 where
  pub State : Type 0
  pub new : State
  pub set_default : String → Value → State → State
  pub bind_env : String → String → State → State
  pub set_config_file : String → State → State
  pub read_in_config : State → Result State
  pub automatic_env : State → State
  pub unmarshal : State → Result Config
  pub get_int : String → State → ℤ

abbrev pub defaults : List (String × Value)
defaults =
    ("addr", string ":8080")
    ∷ ("metrics_addr", string ":9090")
    ∷ ("database.host", string "localhost")
    ∷ ("database.port", int 5432)
    ∷ ("database.user", string "postgres")
    ∷ ("database.password", string "")
    ∷ ("database.dbname", string "transfers")
    ∷ ("database.sslmode", string "disable")
    ∷ ("database.max_conns", int 10)
    ∷ ("shutdown_timeout_seconds", int 15)
    ∷ ("run_migrations", bool true)
    ∷ ("log_level", string "info")
    ∷ ("log_file", string "")
    ∷ []

abbrev pub bindings : List (String × String)
bindings =
    ("addr", "APP_ADDR")
    ∷ ("metrics_addr", "METRICS_ADDR")
    ∷ ("database.host", "DB_HOST")
    ∷ ("database.port", "DB_PORT")
    ∷ ("database.user", "DB_USER")
    ∷ ("database.password", "DB_PASSWORD")
    ∷ ("database.dbname", "DB_NAME")
    ∷ ("database.sslmode", "DB_SSLMODE")
    ∷ ("database.max_conns", "DB_MAX_CONNS")
    ∷ ("shutdown_timeout_seconds", "SHUTDOWN_TIMEOUT_SECONDS")
    ∷ ("run_migrations", "RUN_MIGRATIONS")
    ∷ ("log_level", "LOG_LEVEL")
    ∷ ("log_file", "LOG_FILE")
    ∷ []

abbrev pub is_empty : String → Bool
is_empty s = same_text (text s) []

abbrev pub int64_of : ℕ → ℤ
int64_of m = if ltb m (2 ^ 63) then pos m else negsuc (2 ^ 64 - 1 - m)

-- `time.Duration(s) * time.Second`, which wraps.
abbrev pub seconds : ℤ → ℤ
seconds (pos n) = int64_of (n * 10 ^ 9 % 2 ^ 64)
seconds (negsuc n) = int64_of ((2 ^ 64 - (n + 1) * 10 ^ 9 % 2 ^ 64) % 2 ^ 64)

module _ (viper : Viper) where
  abbrev pub set_defaults : List (String × Value) → viper.State → viper.State
  set_defaults [] v = v
  set_defaults ((key, value) ∷ ds) v = set_defaults ds (viper.set_default key value v)

  abbrev pub bind_envs : List (String × String) → viper.State → viper.State
  bind_envs [] v = v
  bind_envs ((key, variable) ∷ bs) v = bind_envs bs (viper.bind_env key variable v)

  -- The configuration file, or the variables of the same names.
  unfoldable pub read_sources : String → viper.State → Result viper.State
  read_sources config_file v =
      if is_empty config_file
      then ok (viper.automatic_env v)
      else elim (viper.read_in_config (viper.set_config_file config_file v)) [
        | ok w ↦ ok w
        | err e ↦ err (wrap "failed to read config file" e)
      ]

  -- `timeoutSec`, in seconds.
  unfoldable pub timeout_seconds : viper.State → ℤ
  timeout_seconds v =
      if eq_ℤ (viper.get_int "shutdown_timeout_seconds" v) (pos 15)
        && not (eq_ℤ (viper.get_int "shutdown_timeout" v) (pos 0))
      then viper.get_int "shutdown_timeout" v
      else viper.get_int "shutdown_timeout_seconds" v

  -- What follows `v.Unmarshal`.
  unfoldable pub accept : viper.State → Config → Result Config
  unfolding timeout_seconds
  accept v cfg =
      let set = record cfg { shutdown_timeout = seconds (timeout_seconds v) } in
      if is_empty set.database.host || is_empty set.database.dbname
      then err (other "database host and dbname are required")
      else if leb_ℤ set.database.max_conns (pos 0)
      then err (other "database max_conns must be positive")
      else ok set

  abbrev pub unmarshalled : viper.State → Result Config → Result Config
  unmarshalled v (ok cfg) = accept v cfg
  unmarshalled v (err e) = err (wrap "failed to unmarshal config" e)

  abbrev pub from_sources : Result viper.State → Result Config
  from_sources (ok v) = unmarshalled v (viper.unmarshal v)
  from_sources (err e) = err e

  -- The argument is the value of CONFIG_FILE.
  unfoldable pub load : String → Result Config
  unfolding read_sources accept
  load config_file =
      from_sources (read_sources config_file (bind_envs bindings (set_defaults defaults viper.new)))
