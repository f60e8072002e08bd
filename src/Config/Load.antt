-- ===== src/Config/Load.antt =====
-- Which settings Load accepts.
use transfer_demo.Prelude.{
  ◌≡◌, ◌≢◌, ◌↔◌, ◌<◌, true, false, [], String, ℤ, pos, negsuc, pos_part, leb_ℤ, arith,
}
use transfer_demo.Platform.Tracer.{text}
use transfer_demo.Platform.Tracer.Labels.{same_text_iff}
use transfer_demo.Result.{ok}
use transfer_demo.Config.{
  Config, Viper, is_empty, seconds, set_defaults, bind_envs, defaults, bindings, read_sources,
  timeout_seconds, accept, load,
}

-- A host, a database name, and room for a connection.
abbrev pub IsUsable : Config → Type 0
IsUsable cfg =
    (text cfg.database.host ≢ [])
    × (text cfg.database.dbname ≢ [])
    × (0 < pos_part cfg.database.max_conns)

is_empty_iff : (s : String) → (is_empty s ≡ true) ↔ (text s ≡ [])
is_empty_iff s = same_text_iff (text s) []

leb_zero_iff : (z : ℤ) → (leb_ℤ z (pos 0) ≡ false) ↔ (0 < pos_part z)
leb_zero_iff (pos n) = ground arith
leb_zero_iff (negsuc n) = ground arith

-- The settings with the shutdown budget that `shutdown_timeout_seconds` and `shutdown_timeout` give.
abbrev pub with_timeout : (viper : Viper) → viper.State → Config → Config
with_timeout viper v raw = record raw { shutdown_timeout = seconds (timeout_seconds viper v) }

accept-ok :
    (viper : Viper) (v : viper.State) (raw cfg : Config)
    → (accept viper v raw ≡ ok cfg) ↔ (IsUsable raw × (with_timeout viper v raw ≡ cfg))
unfolding accept
accept-ok viper v raw cfg = ground (
  arith,
  is_empty_iff raw.database.host,
  is_empty_iff raw.database.dbname,
  leb_zero_iff raw.database.max_conns,
)

module _ (viper : Viper) (config_file : String) where
  -- The settings as `Load` declares them, before a file and the environment are read.
  abbrev pub declared : viper.State
  declared = bind_envs viper bindings (set_defaults viper defaults viper.new)

  -- Where the sources can be read and decoded, Load returns a configuration if and only if a host
  -- and a database name are set and max_conns is positive; it is then the decoded one with the
  -- shutdown budget.
  pub load-ok :
      (v : viper.State) (raw cfg : Config)
      → read_sources viper config_file declared ≡ ok v
      → viper.unmarshal v ≡ ok raw
      → (load viper config_file ≡ ok cfg) ↔ (IsUsable raw × (with_timeout viper v raw ≡ cfg))
  unfolding load
  load-ok v raw cfg h k = rw (h, k) (accept-ok viper v raw cfg)
