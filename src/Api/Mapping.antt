-- ===== src/Api/Mapping.antt =====
-- internal/api/response.go: errors to statuses and messages.
use transfer_demo.Prelude.{ℕ, String, leb, if◌then◌else◌}
use transfer_demo.Decimal.{Decimal}
use transfer_demo.Domain.{
  GoError, errors_is, error_text, account_not_found, account_already_exists, insufficient_funds,
  invalid_amount, invalid_account_id, same_account, invalid_idempotency, idempotency_conflict,
}
use transfer_demo.Api.{Metric, request_failed, error_body, Server, Handler, count_metric, write_log}

unfoldable pub error_mapping : GoError → ℕ × String
error_mapping e =
    if errors_is e invalid_amount
    then (400, "invalid_amount")
    else if errors_is e invalid_account_id
    then (400, "invalid_account_id")
    else if errors_is e same_account
    then (400, "same_account")
    else if errors_is e invalid_idempotency
    then (400, "invalid_idempotency_key")
    else if errors_is e account_not_found
    then (404, "account_not_found")
    else if errors_is e account_already_exists
    then (409, "account_already_exists")
    else if errors_is e insufficient_funds
    then (409, "insufficient_funds")
    else if errors_is e idempotency_conflict
    then (422, "idempotency_conflict")
    else (500, "internal")

module _ ⦃dec : Decimal⦄ where
  unfoldable pub respond_error : String → GoError → Handler dec
  unfolding error_mapping
  respond_error layer e c s =
      let (status, err_type) = error_mapping e in
      let counted : Server = count_metric (Metric.errors err_type layer) s in
      if leb 500 status
      then (
        record { status = status; body = error_body (record { error = "internal server error" }) },
        write_log (request_failed c.request_id c.method c.path err_type layer e) counted,
      )
      else (
        record { status = status; body = error_body (record { error = error_text e }) },
        counted,
      )

  unfoldable pub bad_request : String → String → Handler dec
  bad_request err_type msg c s = (
    record { status = 400; body = error_body (record { error = msg }) },
    count_metric (Metric.errors err_type "handler") s,
  )
