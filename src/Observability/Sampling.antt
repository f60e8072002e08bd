-- ===== src/Observability/Sampling.antt =====
-- What the gauges of the pool show.
use transfer_demo.Prelude.{◌≡◌, refl, Option, none, some, List, [], ◌∷◌, ◌∙◌}
use transfer_demo.Observability.{PoolStat, Wakeup, cancelled, tick, Gauges, set_gauges, sample_pool}

-- The last sample before the context ends.
abbrev pub latest : List Wakeup → Option PoolStat
latest [] = none
latest (cancelled ∷ ws) = none
latest (tick stat ∷ ws) = elim (latest ws) [ none ↦ some stat | some later ↦ some later ]

abbrev pub shown : Option PoolStat → Gauges → Gauges
shown none g = g
shown (some stat) g = set_gauges stat g

-- The gauges show the last sample before the context ends, or are as they were.
pub sample_pool-latest : (ws : List Wakeup) (g : Gauges) → sample_pool ws g ≡ shown (latest ws) g
unfolding sample_pool
sample_pool-latest [] g = refl
sample_pool-latest (cancelled ∷ ws) g = refl
sample_pool-latest (tick stat ∷ ws) g =
    sample_pool-latest ws (set_gauges stat g) ∙ shown-tick (latest ws)
  where
    shown-tick :
        (o : Option PoolStat)
        → shown o (set_gauges stat g)
          ≡ shown (elim o [ none ↦ some stat | some later ↦ some later ]) g
    shown-tick none = refl
    shown-tick (some later) = refl
