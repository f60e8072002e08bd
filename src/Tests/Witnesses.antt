-- ===== src/Tests/Witnesses.antt =====
-- The theorems at concrete inputs.
use transfer_demo.Repository.Accounts as Repo
use transfer_demo.Repository.Tx.{with_tx}
use transfer_demo.Repository.Tx.Outcome.{Outcome, with_tx-Outcome}
use transfer_demo.Audit.Soundness.{roll_back-IsSound, IsSound, empty-IsSound}
use transfer_demo.Service.Transfers.Orderly.{Orderly-create}
use transfer_demo.Action.Ensures.{Ensures-imp, Ensures}
use transfer_demo.Prelude.{eq_ℤ, ◌-ℤ◌, ◌≡◌, refl, none, some, [], ◌∷◌, pos, arith, ◌↔◌, ◌+ℤ◌, false}
use transfer_demo.Domain.{Transfer}
use transfer_demo.Database.{TransferRow, Database, empty}
use transfer_demo.Action.{tx, World, Event, quiet, server}
use transfer_demo.Repository.Accounts.{lock_for_update}
use transfer_demo.Service.Money.{
  validate_account_id, validate_amount, validate_initial_balance, check_range_and_scale,
}
use transfer_demo.Service.Money.Laws.{IsStorable, validate_amount_iff, validate_initial_balance_iff}
use transfer_demo.Service.Transfers.{validate, first_error, check_key, execute, transfer}
use transfer_demo.Service.Transfers.Validation.{IsAcceptable, validate_iff}
use transfer_demo.Service.Transfers.Effect.{moved, Moved, execute-Ensures}
use transfer_demo.Service.Transfers.Progress.{IsExecutable}
use transfer_demo.Api.Health.{HealthHandler}
use transfer_demo.Api.{transaction_body}
use transfer_demo.Api.Handlers.{command, handle_transfer}
use transfer_demo.Api.Outcome.{handle_transfer-refused, handle_transfer-answered}
use transfer_demo.Result.{ok}
use transfer_demo.Action.Orderly.{All}
use transfer_demo.Service.Drift.{Drift, Allowed, KeepsSound}
use transfer_demo.Service.Accounts
use transfer_demo.Service.Accounts.Effect as Effect
use transfer_demo.Audit.Soundness.Openings.{opened-IsSound}
use transfer_demo.Service.Accounts.Outcome.{CreateOutcome, create_once}
use transfer_demo.Service.Transfers.Outcome.{TransferOutcome, transfer_once, transfer-IsSound}
use transfer_demo.Tests.Externals.{fixed, fixed_laws, one_digit, units}
use transfer_demo.Tests.Statuses.{
  visit, request, server_state, too_dear, refused_status, status_200,
}
use transfer_demo.Tests.Runs.{two_accounts, opened, order}

-- Nobody else writes.
abbrev pub Same : Database → Database → Type 0
Same db db' = db' ≡ db

pub keeps_same : KeepsSound Same
keeps_same db db' e s = rw e s

pub opened-Sound : IsSound two_accounts
unfolding eq_ℤ
opened-Sound =
    opened-IsSound (pos 2) (pos 5) (Effect.opened (pos 1) (pos 100) empty)
      (opened-IsSound (pos 1) (pos 100) empty empty-IsSound refl (omega arith)) refl (omega arith)

abbrev deadlock : Event
deadlock = record quiet {
  fault = some (server (record { code = "40P01"; constraint_name = ""; message = "deadlock" }));
}

-- The first attempt meets a deadlock.
abbrev busy : World
busy = record opened { events = quiet ∷ deadlock ∷ [] }

busy-Allowed : All (Allowed Same) busy.events
busy-Allowed = ((λ db. refl, tt), ((λ db. refl, λ h. cc), tt))

transfer-IsSound_example : IsSound (transfer order busy).1.db
transfer-IsSound_example =
    transfer-IsSound fixed_laws Same keeps_same order busy busy-Allowed opened-Sound

transfer_once_example :
    TransferOutcome fixed_laws Same keeps_same busy.db order
      (transfer order busy).0
      (transfer order busy).1.db
transfer_once_example =
    transfer_once fixed_laws Same keeps_same order busy busy-Allowed opened-Sound

create_once_example :
    CreateOutcome fixed_laws Same keeps_same
      (pos 3)
      (units (pos 7))
      busy.db
      (Accounts.create (pos 3) (units (pos 7)) busy).0
      (Accounts.create (pos 3) (units (pos 7)) busy).1.db
create_once_example =
    create_once fixed_laws Same keeps_same (pos 3) (units (pos 7)) busy busy-Allowed opened-Sound

-- `order` after it has been stored under its key.
abbrev served : Database
served = moved (some 1) (pos 1) (pos 2) (pos 30) (pos 100) (pos 5) two_accounts

abbrev stored : TransferRow
stored = record {
  id = 1;
  idempotency_key = some 1;
  source_id = pos 1;
  destination_id = pos 2;
  amount = pos 30;
  status = "completed";
  created_at = 0;
}

order_valid : validate order ≡ none
unfolding validate validate_account_id validate_amount check_range_and_scale first_error check_key
    eq_ℤ ◌-ℤ◌
order_valid = refl

execute-Ensures_example : Ensures (execute tx order) two_accounts (Moved order two_accounts)
execute-Ensures_example =
    execute-Ensures fixed_laws order two_accounts (omega arith) opened-Sound.unique

validate_iff_example : (validate order ≡ none) ↔ IsAcceptable order
validate_iff_example = validate_iff fixed_laws order

validate_amount_iff_example :
    (validate_amount (units (pos 30)) ≡ none) ↔ IsStorable (pos 1) (units (pos 30))
validate_amount_iff_example = validate_amount_iff fixed_laws (units (pos 30))

validate_initial_balance_iff_example :
    (validate_initial_balance (units (pos 0)) ≡ none) ↔ IsStorable (pos 0) (units (pos 0))
validate_initial_balance_iff_example = validate_initial_balance_iff fixed_laws (units (pos 0))

handle_transfer-answered_example :
    (t : Transfer fixed) × ((handle_transfer (some request) "k1" visit server_state).0.body
      ≡ transaction_body (record {
        transaction_id = t.id;
        source_account_id = t.source_id;
        destination_account_id = t.destination_id;
        amount = t.amount;
        status = t.status;
      }))
    × TransferOutcome fixed_laws Same keeps_same two_accounts
        (command request "k1")
        (ok t)
        (handle_transfer (some request) "k1" visit server_state).1.world.db
handle_transfer-answered_example =
    handle_transfer-answered fixed_laws Same keeps_same "k1" visit server_state tt opened-Sound
      request status_200

handle_transfer-refused_example :
    Drift Same two_accounts (handle_transfer (some too_dear) "k1" visit server_state).1.world.db
handle_transfer-refused_example =
    handle_transfer-refused fixed_laws Same keeps_same "k1" visit server_state tt opened-Sound
      (some too_dear) (rw refused_status (omega arith)) (rw refused_status (omega arith))

-- An opening of account 3 with 7 units, from sound data.
abbrev OpenedSoundly : Unit {0} → Database → Type 0
OpenedSoundly _ db = (mid : Database) × IsSound mid × Effect.Opened (pos 3) (pos 7) mid db

with_tx-Outcome_example :
    Outcome IsSound OpenedSoundly roll_back-IsSound
      (with_tx (Repo.create tx (pos 3) (units (pos 7))) busy).0
      (with_tx (Repo.create tx (pos 3) (units (pos 7))) busy).1.db
with_tx-Outcome_example =
    with_tx-Outcome IsSound OpenedSoundly roll_back-IsSound (Repo.create tx (pos 3) (units (pos 7)))
      (Orderly-create (pos 3) (units (pos 7)))
      (λ db n.
        Ensures-imp _ (λ _ db' o. (db, n, o))
          (Effect.create-Ensures fixed_laws (pos 3) (units (pos 7)) db (omega arith)))
      busy ((λ db n. n, tt), ((λ db n. n, λ h. cc), tt)) opened-Sound

unfoldable pub order_can : IsExecutable order two_accounts
unfolding eq_ℤ ◌+ℤ◌
order_can = record {
  source = (record { id = pos 1; balance = pos 100; version = 0; created_at = 0; updated_at = 0 });
  destination = (record {
    id = pos 2;
    balance = pos 5;
    version = 0;
    created_at = 0;
    updated_at = 0;
  });
  key = some 1;
  source_found = refl;
  destination_found = refl;
  key_casts = refl;
  free = refl;
  covered = omega arith;
  source_fits = omega arith;
  destination_fits = omega arith;
}

pub order-IsAcceptable : IsAcceptable order
order-IsAcceptable = (validate_iff fixed_laws order).0 order_valid

abbrev up : HealthHandler
up = record { shutting_down = false }
