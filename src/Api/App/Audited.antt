-- ===== src/Api/App/Audited.antt =====
-- The audit script after the requests that the public server serves.
use transfer_demo.Prelude.{◌≡◌, List}
use transfer_demo.Decimal.{Decimal, DecimalLaws}
use transfer_demo.Uuid.{UuidCodec}
use transfer_demo.Result.{done}
use transfer_demo.Database.{Database}
use transfer_demo.Audit.Soundness.{IsSound}
use transfer_demo.Audit.Script.{audit_database}
use transfer_demo.Audit.Script.Verdict.{audit-passes}
use transfer_demo.Service.Drift.{KeepsSound}
use transfer_demo.Api.{Server}
use transfer_demo.Api.App.{Arrival, serve_all}
use transfer_demo.Api.App.Soundness.{AllAllowed, serve_all-IsSound}

module _ ⦃dec : Decimal⦄ ⦃uuid : UuidCodec⦄ (laws : DecimalLaws dec)
    (Rely : Database → Database → Type 0) (keeps : KeepsSound Rely) where
  -- Run after any sequence of requests to the public server, the audit script finds nothing amiss and
  -- exits with status 0, from sound data, under faults and under commits of others that keep the data
  -- sound, where a deadlock or a serialization failure at a commit has not landed.
  pub serve_all-audited :
      (arrivals : List Arrival) (s : Server)
      → AllAllowed laws Rely keeps arrivals
      → IsSound s.world.db
      → (audit_database done (serve_all arrivals s).1.world.db).1 ≡ 0
  serve_all-audited arrivals s allowed sound =
      audit-passes (serve_all arrivals s).1.world.db
        (serve_all-IsSound laws Rely keeps arrivals s allowed sound)
