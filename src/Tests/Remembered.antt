-- ===== src/Tests/Remembered.antt =====
-- A transfer, asked for again after an account was opened and another was read.
use transfer_demo.Api.{responded, Server, TransactionResponse}
use transfer_demo.Prelude.{◌≡◌, ◌∙◌, ◌-ℤ◌, ◌+ℤ◌, eq_ℤ, refl, some, true, List, [], ◌∷◌, pos}
use transfer_demo.Strconv.{parse_int}
use transfer_demo.Service.Money.{
  validate_account_id, validate_amount, validate_initial_balance, check_range_and_scale,
}
use transfer_demo.Service.Transfers.{validate, first_error, check_key}
use transfer_demo.Service.Transfers.Decision.{decision}
use transfer_demo.Api.App.{Arrival, create_account, get_account, post_transaction, serve, serve_all}
use transfer_demo.Api.App.Answers.{answer}
use transfer_demo.Api.App.Answers.Sequence.{serve-answer}
use transfer_demo.Api.App.Answers.Repeated.{asking, accepted, serve-remembers}
use transfer_demo.Tests.Decided.{two_accounts-AllFit}
use transfer_demo.Tests.Externals.{fixed, fixed_laws, one_digit}
use transfer_demo.Tests.Runs.{two_accounts}
use transfer_demo.Tests.Served.{third_account}
use transfer_demo.Tests.Statuses.{visit, request, server_state}
use transfer_demo.Tests.Witnesses.{opened-Sound}

abbrev others : List Arrival
others =
    record {
      context = visit;
      fresh = "r2";
      call = create_account (some third_account);
      events = [];
    }
    ∷ record { context = visit; fresh = "r3"; call = get_account "2"; events = [] }
    ∷ []

abbrev receipt : TransactionResponse fixed
receipt = record {
  transaction_id = 1;
  source_account_id = pos 1;
  destination_account_id = pos 2;
  amount = request.amount;
  status = "completed";
}

decided :
    responded (answer (post_transaction (some request) "k1") two_accounts).0
    ≡ responded (accepted receipt)
unfolding answer decision validate validate_account_id validate_amount validate_initial_balance
    check_range_and_scale first_error check_key parse_int eq_ℤ ◌-ℤ◌ ◌+ℤ◌
decided = refl

abbrev later : Server
later = (serve_all others (serve (asking request "k1" visit "r1") server_state).2).1

first : (serve (asking request "k1" visit "r1") server_state).0 ≡ responded (accepted receipt)
first =
    (serve-answer fixed_laws (asking request "k1" visit "r1") server_state refl opened-Sound
      two_accounts-AllFit).0
    ∙ decided

serve-remembers_example :
    (b : TransactionResponse fixed) × ((serve (asking request "k1" visit "r4") later).0
      ≡ responded (accepted b))
    × (b.transaction_id ≡ 1)
    × (b.status ≡ "completed")
    × (b.source_account_id ≡ pos 1)
    × (b.destination_account_id ≡ pos 2)
    × (fixed.equal b.amount request.amount ≡ true)
    × ((serve (asking request "k1" visit "r4") later).2.world.db ≡ later.world.db)
serve-remembers_example =
    serve-remembers fixed_laws request "k1" 1 refl refl visit visit "r1" "r4" others server_state
      receipt (refl, (refl, tt)) opened-Sound two_accounts-AllFit first
