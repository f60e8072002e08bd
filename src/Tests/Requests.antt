-- ===== src/Tests/Requests.antt =====
-- Requests whose handlers panic, one that opens an account, and the probe of a server that drains.
use transfer_demo.Api.{responded, panicked, panic_recovered, ready_body, CreateAccountRequest}
use transfer_demo.Api.Health.{set_not_ready, readyz}
use transfer_demo.Api.Middleware.{
  recover, recovered, request_id, observe, observed, Chain, public_chain,
}
use transfer_demo.Api.App.{get_readyz, get_metrics, admin_endpoint, admin_server}
use transfer_demo.Prelude.{[], ◌∷◌, ◌≡◌, refl, false, some, pos, eq_ℤ, arith}
use transfer_demo.Api.Probes.{or_internal}
use transfer_demo.Domain.{errors_is}
use transfer_demo.Api.Mapping.{respond_error, error_mapping}
use transfer_demo.Service.Drift.{Drift}
use transfer_demo.Service.Accounts.Opening.{create-taken}
use transfer_demo.Tests.Openings.{seven-IsStorable}
use transfer_demo.Api.Handlers.{create, created}
use transfer_demo.Api.Openings.{create-refused}
use transfer_demo.Tests.Externals.{fixed, fixed_laws, one_digit, units}
use transfer_demo.Tests.Runs.{two_accounts}
use transfer_demo.Tests.Witnesses.{Same, keeps_same, opened-Sound}
use transfer_demo.Tests.Statuses.{visit, server_state}

abbrev panics : Chain
panics c s = (panicked "boom", c, s)

-- The line has the request and the value of the panic.
panic_line :
    (public_chain "r1" panics visit server_state).2.log
    ≡ panic_recovered "r1" "GET" "/accounts/1" "boom" ∷ []
unfolding public_chain recover recovered request_id observe observed
panic_line = refl

-- The id of this account is taken.
abbrev opening : CreateAccountRequest fixed
opening = record { account_id = pos 2; initial_balance = units (pos 7) }

taken_status : (create (some opening) visit server_state).0.status ≡ 409
unfolding create created respond_error error_mapping errors_is eq_ℤ
taken_status =
    rw
      (create-taken fixed_laws (pos 2) (units (pos 7)) two_accounts (omega arith) seven-IsStorable
        refl)
      refl

create-refused_example :
    Drift Same two_accounts (create (some opening) visit server_state).1.world.db
create-refused_example =
    create-refused fixed_laws Same keeps_same visit server_state tt opened-Sound (some opening)
      (rw taken_status (omega arith)) (rw taken_status (omega arith))

-- The load balancer is told off before the servers are shut down.
draining :
    (admin_server panics
      (set_not_ready (record { shutting_down = false }))
      (get_readyz false)
      visit
      server_state).0
    ≡ responded
        (record { status = 503; body = ready_body (record { status = "draining"; checks = [] }) })
unfolding admin_server admin_endpoint recover recovered set_not_ready readyz
draining = refl

-- A panic while the metrics are written out does not reach the client.
scrape_panics :
    (admin_server panics (record { shutting_down = false }) get_metrics visit server_state).0
    ≡ responded (or_internal (panicked "boom"))
unfolding admin_server admin_endpoint recover recovered
scrape_panics = refl
