-- ===== src/Tests/Statuses.antt =====
-- Requests that run through every layer.
use transfer_demo.Prelude.{◌≡◌, refl, some, [], pos, eq_ℤ, ◌-ℤ◌, ◌+ℤ◌}
use transfer_demo.Domain.{errors_is, errors_as_pg_error}
use transfer_demo.Database.Statements.{
  select_transfer, among, insert_by_id, insert_ledger_entry, insert_transfer, member, or_no_rows,
  order_by_id, out_of_range, select_accounts_for_update, update_balance,
}
use transfer_demo.Action.{check, ◌>>=◌, round_trip, map_error, attempt, or_fail}
use transfer_demo.Repository.Errors.{constraint_name, is_unique_violation, pg_error_code}
use transfer_demo.Repository.Tx.{
  with_tx, run_once, attempts, begin_reply, commit_reply, finish, is_retryable,
}
use transfer_demo.Repository.Accounts as Repo
use transfer_demo.Repository.Accounts.{lock_for_update, scan_accounts, update_error}
use transfer_demo.Repository.Transfers as Keyed
use transfer_demo.Repository.Transfers.{
  find_by_idempotency_key, insert_error, insert_row, select_by_key, with_cast,
}
use transfer_demo.Service.Money.{validate_account_id, validate_amount, check_range_and_scale}
use transfer_demo.Service.Transfers.{
  transfer, validate, transfer_in_tx, execute, execute_locked, after_lookup, check_key, first_error,
  lost_race,
}
use transfer_demo.Api.{TransferRequest, Context, Server}
use transfer_demo.Api.Mapping.{error_mapping, respond_error}
use transfer_demo.Api.Handlers.{handle_transfer, transferred}
use transfer_demo.Tests.Externals.{fixed, one_digit, units}
use transfer_demo.Tests.Runs.{opened}

abbrev pub visit : Context
visit = record {
  method = "GET";
  path = "/accounts/1";
  full_path = "/accounts/:account_id";
  request_id_header = "";
  request_id = "";
  response_request_id = "";
}

abbrev pub request : TransferRequest fixed
request = record {
  source_account_id = pos 1;
  destination_account_id = pos 2;
  amount = units (pos 30);
}

abbrev pub server_state : Server
server_state = record { world = opened; metrics = []; log = [] }

abbrev pub too_dear : TransferRequest fixed
too_dear = record request { amount = units (pos 101) }

pub refused_status : (handle_transfer (some too_dear) "k1" visit server_state).0.status ≡ 409
unfolding handle_transfer transfer ◌>>=◌ check validate validate_account_id eq_ℤ validate_amount
    with_tx run_once transfer_in_tx find_by_idempotency_key round_trip select_transfer errors_is
    execute execute_locked lock_for_update map_error attempt or_fail transferred error_mapping
    respond_error among insert_by_id insert_ledger_entry insert_transfer member or_no_rows
    order_by_id out_of_range select_accounts_for_update update_balance errors_as_pg_error
    scan_accounts Repo.update_balance update_error constraint_name is_unique_violation pg_error_code
    Keyed.insert insert_error Keyed.insert_ledger_entry insert_row select_by_key with_cast attempts
    begin_reply commit_reply finish is_retryable check_range_and_scale after_lookup check_key
    first_error lost_race ◌-ℤ◌ ◌+ℤ◌
refused_status = refl

pub status_200 : (handle_transfer (some request) "k1" visit server_state).0.status ≡ 200
unfolding handle_transfer transfer ◌>>=◌ check validate validate_account_id eq_ℤ validate_amount
    with_tx run_once transfer_in_tx find_by_idempotency_key round_trip select_transfer errors_is
    execute execute_locked lock_for_update map_error attempt or_fail transferred error_mapping
    respond_error among insert_by_id insert_ledger_entry insert_transfer member or_no_rows
    order_by_id out_of_range select_accounts_for_update update_balance errors_as_pg_error
    scan_accounts Repo.update_balance update_error constraint_name is_unique_violation pg_error_code
    Keyed.insert insert_error Keyed.insert_ledger_entry insert_row select_by_key with_cast attempts
    begin_reply commit_reply finish is_retryable check_range_and_scale after_lookup check_key
    first_error lost_race ◌-ℤ◌ ◌+ℤ◌
status_200 = refl
