-- ===== src/Api/App/Answers.antt =====
-- What the public server is to answer when nobody interferes: a state machine on the database, with
-- no transactions, queries, locks, middleware or logs.
pub mod Agreement
pub mod Ranges
pub mod Sequence
pub mod Memory
pub mod Repeated
use transfer_demo.Api.{
  Ending, responded, Reply, no_body, account_body, transaction_body, error_body,
}
use transfer_demo.Prelude.{ℕ, Option, none, some, List, [], ◌∷◌, String, ℤ, leb, if◌then◌else◌}
use transfer_demo.Strconv.{parse_int}
use transfer_demo.Decimal.{Decimal}
use transfer_demo.Uuid.{UuidCodec}
use transfer_demo.Domain.{GoError, error_text, Account, Transfer}
use transfer_demo.Result.{Result, Done, ok, err}
use transfer_demo.Database.{Database}
use transfer_demo.Service.Accounts.Decision.{create_decision, get_decision}
use transfer_demo.Service.Transfers.Decision.{decision}
use transfer_demo.Api.Mapping.{error_mapping}
use transfer_demo.Api.Handlers.{command}
use transfer_demo.Api.App.{Call, create_account, get_account, post_transaction}

module _ ⦃dec : Decimal⦄ where
  abbrev pub message : ℕ → String → Reply dec
  message status text = record { status = status; body = error_body (record { error = text }) }

  -- By the status of the error; what an internal error says is kept from the client.
  abbrev pub error_reply : GoError → Reply dec
  error_reply e =
      if leb 500 (error_mapping e).0
      then message (error_mapping e).0 "internal server error"
      else message (error_mapping e).0 (error_text e)

  abbrev pub created_reply : Done → Reply dec
  created_reply (ok u) = record { status = 201; body = no_body }
  created_reply (err e) = error_reply e

  abbrev pub account_reply : Result (Account dec) → Reply dec
  account_reply (ok a) = record {
    status = 200;
    body = account_body (record { account_id = a.id; balance = a.balance });
  }
  account_reply (err e) = error_reply e

  -- 200 with the transfer.
  abbrev pub transfer_reply : Transfer dec → Reply dec
  transfer_reply t = record {
    status = 200;
    body = transaction_body (record {
      transaction_id = t.id;
      source_account_id = t.source_id;
      destination_account_id = t.destination_id;
      amount = t.amount;
      status = t.status;
    });
  }

  abbrev pub transferred_reply : Result (Transfer dec) → Reply dec
  transferred_reply (ok t) = transfer_reply t
  transferred_reply (err e) = error_reply e

  abbrev pub read_reply : Option ℤ → Database → Reply dec
  read_reply none db = message 400 "invalid account id"
  read_reply (some id) db = account_reply (get_decision id db)

module _ ⦃dec : Decimal⦄ ⦃uuid : UuidCodec⦄ where
  unfoldable pub answer : Call → Database → Reply dec × Database
  answer (create_account none) db = (message 400 "invalid request body", db)
  answer (create_account (some req)) db =
      let (r, db') = create_decision req.account_id req.initial_balance db in (created_reply r, db')
  answer (get_account account_id) db = (read_reply (parse_int account_id) db, db)
  answer (post_transaction none key) db = (message 400 "invalid request body", db)
  answer (post_transaction (some req) key) db =
      let (r, db') = decision (command req key) db in (transferred_reply r, db')

  -- One call after another.
  unfoldable pub answers : List Call → Database → List (Ending dec) × Database
  unfolding answer
  answers [] db = ([], db)
  answers (call ∷ calls) db =
      let (reply, db') = answer call db in
      let (replies, last) = answers calls db' in (responded reply ∷ replies, last)
