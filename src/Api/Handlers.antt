-- ===== src/Api/Handlers.antt =====
-- internal/api/transaction_handler.go and account_handler.go. What `BindJSON` makes of the request's
-- body is an argument: `none` for an error.
use text.Mathlib.Text.{◌==◌}
use transfer_demo.Prelude.{Option, none, some, String, ℤ, if◌then◌else◌}
use transfer_demo.Strconv.{parse_int}
use transfer_demo.Decimal.{Decimal}
use transfer_demo.Uuid.{UuidCodec}
use transfer_demo.Domain.{Account, Transfer}
use transfer_demo.Result.{Result, Done, ok, err}
use transfer_demo.Service.Accounts
use transfer_demo.Service.Transfers.{TransferCmd, transfer}
use transfer_demo.Api.{
  CreateAccountRequest, TransferRequest, Metric, Server, Handler, count_metric, no_body,
  account_body, transaction_body,
}
use transfer_demo.Api.Mapping.{respond_error, bad_request}

module _ ⦃dec : Decimal⦄ where
  unfoldable pub created : Done → Handler dec
  created (err e) c s =
      respond_error "service" e c (count_metric (Metric.accounts_created "error") s)
  created (ok _) c s =
      (record { status = 201; body = no_body }, count_metric (Metric.accounts_created "ok") s)

  unfoldable pub create : Option (CreateAccountRequest dec) → Handler dec
  unfolding created
  create none c s = bad_request "invalid_request" "invalid request body" c s
  create (some req) c s =
      let (r, w) = Accounts.create req.account_id req.initial_balance s.world in
      created r c (record s { world = w })

  unfoldable pub got : Result (Account dec) → Handler dec
  got (err e) c s = respond_error "service" e c s
  got (ok a) c s = (
    record {
      status = 200;
      body = account_body (record { account_id = a.id; balance = a.balance });
    },
    s,
  )

  unfoldable pub get_by_id : Option ℤ → Handler dec
  unfolding got
  get_by_id none c s = bad_request "invalid_request" "invalid account id" c s
  get_by_id (some id) c s = let (r, w) = Accounts.get id s.world in got r c (record s { world = w })

  unfoldable pub get : String → Handler dec
  unfolding get_by_id parse_int
  get account_id = get_by_id (parse_int account_id)

module _ ⦃dec : Decimal⦄ ⦃uuid : UuidCodec⦄ where
  abbrev pub command : TransferRequest dec → String → TransferCmd dec
  command req key = record {
    source_id = req.source_account_id;
    destination_id = req.destination_account_id;
    amount = req.amount;
    idempotency_key = key;
  }

  unfoldable pub transferred : Result (Transfer dec) → Handler dec
  transferred (err e) c s = respond_error "service" e c (count_metric (Metric.transfers "failed") s)
  transferred (ok t) c s = (
    record {
      status = 200;
      body = transaction_body (record {
        transaction_id = t.id;
        source_account_id = t.source_id;
        destination_account_id = t.destination_id;
        amount = t.amount;
        status = t.status;
      });
    },
    count_metric (Metric.transfers "completed") s,
  )

  abbrev key_label : String → String
  key_label key = if key == "" then "no_key" else "with_key"

  -- `key` is the header Idempotency-Key, or empty.
  unfoldable pub handle_transfer : Option (TransferRequest dec) → String → Handler dec
  unfolding transferred
  handle_transfer none key c s = bad_request "invalid_request" "invalid request body" c s
  handle_transfer (some req) key c s =
      let hit : Server = count_metric (Metric.idempotency_hits (key_label key)) s in
      let (r, w) = transfer (command req key) s.world in
      transferred r c (count_metric Metric.transfer_latency (record hit { world = w }))
