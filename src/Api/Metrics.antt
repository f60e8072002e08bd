-- ===== src/Api/Metrics.antt =====
-- Where the counters and durations of internal/api and of the query tracer in cmd/server/main.go
-- go: the collectors of NewMetrics, and the values for their labels.
use transfer_demo.Prelude.{◌≡◌, refl, Bool, true, false, Option, none, some, List, [], ◌∷◌, String}
use transfer_demo.Observability.{
  Field, Collector, collector, metric_fields, new_metrics, Sample, find_collector,
}
use transfer_demo.Observability.Registry.{are_free, onto, new_metrics_registers}
use transfer_demo.Api.{Metric}

abbrev pub sample : Field → List String → Sample
sample field values = record { field = field; values = values }

unfoldable pub sample_of : Metric → Sample
sample_of (Metric.errors type layer) = sample Field.errors (type ∷ layer ∷ [])
sample_of (Metric.idempotency_hits result) = sample Field.idempotency_hits (result ∷ [])
sample_of (Metric.transfers status) = sample Field.transfers (status ∷ [])
sample_of Metric.transfer_latency = sample Field.transfer_latency []
sample_of (Metric.accounts_created result) = sample Field.accounts_created (result ∷ [])
sample_of (Metric.http_requests route method status) =
    sample Field.http_requests (route ∷ method ∷ status ∷ [])
sample_of (Metric.http_duration route method) = sample Field.http_duration (route ∷ method ∷ [])

-- The function that main.go gives to NewQueryTracer.
abbrev pub query_sample : String → Sample
query_sample op = sample Field.db_query_duration (op ∷ [])

-- One value for each label.
abbrev pub fits : List String → List String → Bool
fits [] [] = true
fits [] (l ∷ labels) = false
fits (v ∷ values) [] = false
fits (v ∷ values) (l ∷ labels) = fits values labels

abbrev pub fits_collector : List String → Option Collector → Bool
fits_collector values none = false
fits_collector values (some c) = fits values c.labels

-- The registry has the collector of the sample, and the values are as many as its labels, as
-- WithLabelValues wants them.
abbrev pub takes : Option (List Collector) → Sample → Bool
takes none x = false
takes (some cs) x = fits_collector x.values (find_collector (collector x.field).name cs)

onto-takes :
    (registry : List Collector) (m : Metric)
    → takes (some (onto metric_fields registry)) (sample_of m) ≡ true
unfolding sample_of
onto-takes registry (Metric.errors type layer) = refl
onto-takes registry (Metric.idempotency_hits result) = refl
onto-takes registry (Metric.transfers status) = refl
onto-takes registry Metric.transfer_latency = refl
onto-takes registry (Metric.accounts_created result) = refl
onto-takes registry (Metric.http_requests route method status) = refl
onto-takes registry (Metric.http_duration route method) = refl

-- On a registry in which none of its names is taken NewMetrics does not panic, and every counter and
-- duration of the handlers, the responder, the middleware and the query tracer has its collector
-- there, with one value for each label.
pub new_metrics-takes :
    (registry : List Collector)
    → are_free metric_fields registry ≡ true
    → ((m : Metric) → takes (new_metrics registry) (sample_of m) ≡ true)
      × ((op : String) → takes (new_metrics registry) (query_sample op) ≡ true)
unfolding sample_of
new_metrics-takes registry free =
    rw (new_metrics_registers registry, free) (onto-takes registry, λ op. refl)
