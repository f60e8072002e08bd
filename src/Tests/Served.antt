-- ===== src/Tests/Served.antt =====
-- Requests to the public server.
use transfer_demo.Api.{
  Ending, responded, panicked, LogLine, Reply, CreateAccountRequest, AccountResponse, no_body,
  account_body,
}
use transfer_demo.Prelude.{
  ◌+◌, ℕ, map, ◌-ℤ◌, ◌≡◌, ◌+ℤ◌, eq_ℤ, refl, none, some, List, [], ◌∷◌, pos, true, arith,
}
use transfer_demo.Domain.{Transfer}
use transfer_demo.Result.{done}
use transfer_demo.Action.Quiet.{quietly}
use transfer_demo.Audit.Soundness.{IsSound}
use transfer_demo.Audit.Script.{audit_database}
use transfer_demo.Service.Transfers.Effect.{moved}
use transfer_demo.Api.Probes.{with_id}
use transfer_demo.Api.App.{
  Arrival, create_account, get_account, post_transaction, public_server, serve_all,
}
use transfer_demo.Api.App.Soundness.{serve_all-IsSound}
use transfer_demo.Api.App.Audited.{serve_all-audited}
use transfer_demo.Api.App.Counting.{
  count, is_request, is_error, is_completed, is_failed, is_opened, refusal, completion, failure,
  opening,
}
use transfer_demo.Api.App.Counting.Sequence.{tally, serve_all-counts}
use transfer_demo.Api.App.Logging.{HandledOnce, service_error, public_server-logs}
use transfer_demo.Strconv.{parse_int, format_int}
use transfer_demo.Tests.Openings.{seven-IsStorable}
use transfer_demo.Database.{find_account}
use transfer_demo.Api.App.ReadsBack.{public_server-reads_back}
use transfer_demo.Service.Money.{
  validate_account_id, validate_amount, validate_initial_balance, check_range_and_scale,
}
use transfer_demo.Service.Transfers.{validate, first_error, check_key}
use transfer_demo.Service.Transfers.Decision.{decision}
use transfer_demo.Service.Accounts.Decision.{create_decision}
use transfer_demo.Api.App.Answers.{transfer_reply, answer, answers}
use transfer_demo.Api.App.Answers.Sequence.{calls_of, serve_all-answers}
use transfer_demo.Tests.Decided.{two_accounts-AllFit}
use transfer_demo.Api.App.Repeats.{public_server-repeats}
use transfer_demo.Tests.Externals.{fixed, fixed_laws, one_digit, units}
use transfer_demo.Tests.Runs.{two_accounts}
use transfer_demo.Tests.Statuses.{visit, request, server_state}
use transfer_demo.Tests.Witnesses.{Same, keeps_same, opened-Sound, order-IsAcceptable, order_can}

abbrev pub third_account : CreateAccountRequest fixed
third_account = record { account_id = pos 3; initial_balance = units (pos 7) }

-- An account is opened, money is moved, and an id that is no number is asked for.
abbrev arrivals : List Arrival
arrivals =
    record {
      context = visit;
      fresh = "r1";
      call = create_account (some third_account);
      events = [];
    }
    ∷ record {
      context = visit;
      fresh = "r2";
      call = post_transaction (some request) "k1";
      events = [];
    }
    ∷ record { context = visit; fresh = "r3"; call = get_account "one"; events = [] }
    ∷ []

serve_all-IsSound_example : IsSound (serve_all arrivals server_state).1.world.db
serve_all-IsSound_example =
    serve_all-IsSound fixed_laws Same keeps_same arrivals server_state (tt, (tt, (tt, tt)))
      opened-Sound

serve_all-audited_example : (audit_database done (serve_all arrivals server_state).1.world.db).1 ≡ 0
serve_all-audited_example =
    serve_all-audited fixed_laws Same keeps_same arrivals server_state (tt, (tt, (tt, tt)))
      opened-Sound

public_server-logs_example :
    (r : Reply fixed) × ((public_server "r1" (get_account "one") visit server_state).0
      ≡ responded r)
    × (log : List LogLine) × HandledOnce
        (service_error (get_account "one") server_state.world)
        (with_id "r1" visit)
        r
        []
        log
    × ((public_server "r1" (get_account "one") visit server_state).2.log
        ≡ LogLine.request "r1" "GET" "/accounts/1" r.status ∷ log)
public_server-logs_example = public_server-logs "r1" (get_account "one") visit server_state

public_server-repeats_example :
    (t t' : Transfer fixed) × ((public_server "r1"
        (post_transaction (some request) "k1")
        visit
        server_state).0
      ≡ responded (transfer_reply t))
    × ((public_server "r2"
          (post_transaction (some request) "k1")
          visit
          (public_server "r1" (post_transaction (some request) "k1") visit server_state).2).0
        ≡ responded (transfer_reply t'))
    × (t'.id ≡ t.id)
    × (t'.source_id ≡ t.source_id)
    × (t'.destination_id ≡ t.destination_id)
    × (t'.status ≡ t.status)
    × (fixed.equal t'.amount t.amount ≡ true)
    × ((public_server "r2"
          (post_transaction (some request) "k1")
          visit
          (public_server "r1" (post_transaction (some request) "k1") visit server_state).2).2.world
        ≡ quietly (moved (some 1) (pos 1) (pos 2) (pos 30) (pos 100) (pos 5) two_accounts))
unfolding order_can
public_server-repeats_example =
    public_server-repeats request "k1" fixed_laws two_accounts order-IsAcceptable
      opened-Sound.unique order_can 1 refl refl "r1" "r2" visit visit server_state
      (public_server "r1" (post_transaction (some request) "k1") visit server_state).2 refl refl

third-free : find_account (pos 3) two_accounts.accounts ≡ none
unfolding eq_ℤ
third-free = refl

public_server-reads_back_example :
    ((public_server "r1" (create_account (some third_account)) visit server_state).0
      ≡ responded (record { status = 201; body = no_body }))
    × (a : AccountResponse fixed) × ((public_server "r2"
          (get_account (format_int (pos 3)))
          visit
          (public_server "r1" (create_account (some third_account)) visit server_state).2).0
        ≡ responded (record { status = 200; body = account_body a }))
    × (a.account_id ≡ pos 3)
    × (fixed.to_numeric a.balance ≡ fixed.to_numeric (units (pos 7)))
public_server-reads_back_example =
    public_server-reads_back fixed_laws third_account 3 two_accounts refl (omega arith)
      (omega arith) seven-IsStorable third-free opened-Sound.unique two_accounts-AllFit "r1" "r2"
      visit visit server_state
      (public_server "r1" (create_account (some third_account)) visit server_state).2 refl refl

serve_all-answers_example :
    ((serve_all arrivals server_state).0 ≡ (answers (calls_of arrivals) two_accounts).0)
    × ((serve_all arrivals server_state).1.world.db ≡ (answers (calls_of arrivals) two_accounts).1)
serve_all-answers_example =
    serve_all-answers fixed_laws arrivals server_state (refl, (refl, (refl, tt))) opened-Sound
      two_accounts-AllFit

abbrev status_of : Ending fixed → ℕ
status_of (panicked v) = 0
status_of (responded r) = r.status

-- Opened, moved, and refused.
statuses_of_the_arrivals :
    map status_of (answers (calls_of arrivals) two_accounts).0 ≡ 201 ∷ 200 ∷ 400 ∷ []
unfolding answers answer create_decision decision validate validate_account_id validate_amount
    validate_initial_balance check_range_and_scale first_error check_key parse_int eq_ℤ ◌-ℤ◌ ◌+ℤ◌
statuses_of_the_arrivals = refl

serve_all-counts_example :
    (count is_request (serve_all arrivals server_state).1.metrics ≡ 0 + 3)
    × (count is_error (serve_all arrivals server_state).1.metrics
        ≡ 0 + tally (λ call. refusal) (calls_of arrivals) (serve_all arrivals server_state).0)
    × (count is_completed (serve_all arrivals server_state).1.metrics
        ≡ 0 + tally completion (calls_of arrivals) (serve_all arrivals server_state).0)
    × (count is_failed (serve_all arrivals server_state).1.metrics
        ≡ 0 + tally failure (calls_of arrivals) (serve_all arrivals server_state).0)
    × (count is_opened (serve_all arrivals server_state).1.metrics
        ≡ 0 + tally opening (calls_of arrivals) (serve_all arrivals server_state).0)
serve_all-counts_example = serve_all-counts arrivals server_state
