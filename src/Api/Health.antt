-- ===== src/Api/Health.antt =====
-- internal/api/health_handler.go. Whether the pool's Ping returns an error is an argument.
use transfer_demo.Prelude.{Bool, true, [], ◌∷◌, if◌then◌else◌}
use transfer_demo.Decimal.{Decimal}
use transfer_demo.Api.{Reply, ready_body, status_body}

pub record HealthHandler : Type 0 where
  pub shutting_down : Bool

unfoldable pub set_not_ready : HealthHandler → HealthHandler
set_not_ready h = record h { shutting_down = true }

module _ ⦃dec : Decimal⦄ where
  unfoldable pub livez : HealthHandler → Reply dec
  livez h = record { status = 200; body = status_body "ok" }

  unfoldable pub readyz : HealthHandler → Bool → Reply dec
  readyz h ping_fails =
      if h.shutting_down
      then record { status = 503; body = ready_body (record { status = "draining"; checks = [] }) }
      else if ping_fails
      then record {
        status = 503;
        body = ready_body (record { status = "unavailable"; checks = ("postgres", "down") ∷ [] });
      }
      else record {
        status = 200;
        body = ready_body (record { status = "ready"; checks = ("postgres", "ok") ∷ [] });
      }
