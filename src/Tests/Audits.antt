-- ===== src/Tests/Audits.antt =====
-- The audit script, and the registry of the metrics.
use transfer_demo.Prelude.{◌≡◌, ◌↔◌, refl, true, List, [], ◌∷◌, String}
use transfer_demo.Result.{done}
use transfer_demo.Audit.Script.{audit_database}
use transfer_demo.Audit.Script.Verdict.{Balances, audit_iff}
use transfer_demo.Tests.Witnesses.{opened-Sound}
use transfer_demo.Observability.{Collector, new_gauge, new_metrics}
use transfer_demo.Api.{Metric}
use transfer_demo.Api.Metrics.{sample_of, query_sample, takes, new_metrics-takes}
use transfer_demo.Tests.Runs.{two_accounts}

audit_iff_example : (audit_database done two_accounts).1 ≡ 0 ↔ Balances two_accounts
audit_iff_example = audit_iff two_accounts opened-Sound.unique

-- A registry with a collector of the Go runtime.
abbrev registry : List Collector
registry = new_gauge "go_goroutines" "Number of goroutines that currently exist." ∷ []

new_metrics-takes_example :
    ((m : Metric) → takes (new_metrics registry) (sample_of m) ≡ true)
    × ((op : String) → takes (new_metrics registry) (query_sample op) ≡ true)
new_metrics-takes_example = new_metrics-takes registry refl
