-- ===== src/Observability/Registry.antt =====
-- What NewMetrics leaves in the registry, and when it panics.
use transfer_demo.Prelude.{
  ◌≡◌, refl, Bool, true, not, ◌&&◌, none, some, List, [], ◌∷◌, arith, if◌then◌else◌,
}
use transfer_demo.Observability.{
  Field, Collector, collector, metric_fields, is_registered, register_all, new_metrics,
}

-- None of the names of the collectors is taken.
abbrev pub are_free : List Field → List Collector → Bool
are_free [] cs = true
are_free (f ∷ fs) cs =
    let rest = are_free fs cs in not (is_registered (collector f).name cs) && rest

-- No two of the collectors have one name.
abbrev pub are_apart : List Field → Bool
are_apart [] = true
are_apart (f ∷ fs) = let rest = are_apart fs in are_free fs (collector f ∷ []) && rest

-- The collectors on top of a registry, the last one first.
abbrev pub onto : List Field → List Collector → List Collector
onto [] cs = cs
onto (f ∷ fs) cs = onto fs (collector f ∷ cs)

are_free-cons :
    (fs : List Field) (c : Collector) (cs : List Collector)
    → are_free fs (c ∷ []) ≡ true
    → are_free fs (c ∷ cs) ≡ are_free fs cs
are_free-cons [] c cs apart = refl
are_free-cons (f ∷ fs) c cs apart = ground (arith, are_free-cons fs c cs)

register_all-onto :
    (fs : List Field) (cs : List Collector)
    → are_apart fs ≡ true
    → register_all fs (some cs) ≡ (if are_free fs cs then some (onto fs cs) else none)
register_all-onto [] cs apart = refl
register_all-onto (f ∷ fs) cs apart = ground (
  arith,
  are_free-cons fs (collector f) cs,
  register_all-onto fs (collector f ∷ cs),
  register_all-none fs,
)
  where
    register_all-none : (fs : List Field) → register_all fs none ≡ none
    register_all-none fs = refl

-- NewMetrics panics exactly where a name of its collectors is taken.
pub new_metrics_registers :
    (registry : List Collector)
    → new_metrics registry
      ≡ (if are_free metric_fields registry then some (onto metric_fields registry) else none)
unfolding new_metrics
new_metrics_registers registry = register_all-onto metric_fields registry refl
