-- ===== src/Service/Transfers.antt =====
-- internal/service/transfer_service.go.
pub mod Effect
pub mod Orderly
pub mod Validation
pub mod Served
pub mod Outcome
pub mod Decision
pub mod Replay
pub mod Settled
pub mod Progress
pub mod Retry
pub mod Refusals
pub mod Overflow
use text.Mathlib.Text.{◌==◌}
use transfer_demo.Prelude.{
  ℕ, Bool, true, false, ◌&&◌, not, Option, none, some, List, [], ◌∷◌, String, ℤ, eq_ℤ,
  if◌then◌else◌,
}
use transfer_demo.Decimal.{Decimal}
use transfer_demo.Uuid.{UuidCodec}
use transfer_demo.Domain.{
  GoError, sentinel, account_not_found_error, errors_is, insufficient_funds, same_account,
  invalid_idempotency, idempotency_conflict, duplicate_idempotency_key, Account, Transfer,
  LedgerEntry, status_completed, direction_debit, direction_credit,
}
use transfer_demo.Result.{Result, ok, err}
use transfer_demo.Action.{Querier, pool, tx, World, Action, pure, fail, check, or_fail, ◌>>=◌, ◌>>◌}
use transfer_demo.Repository.GoMap.{GoMap, lookup}
use transfer_demo.Repository.Tx.{with_tx}
use transfer_demo.Repository.Accounts.{lock_for_update, update_balance}
use transfer_demo.Repository.Transfers.{find_by_idempotency_key, insert, insert_ledger_entry}
use transfer_demo.Service.Money.{validate_account_id, validate_amount}

module _ (dec : Decimal) where
  pub record TransferCmd : Type 0 where
    pub source_id : ℤ
    pub destination_id : ℤ
    pub amount : dec.Value
    pub idempotency_key : String

abbrev pub optional_key : String → Option String
optional_key key = if key == "" then none else some key

unfoldable pub first_error : Option GoError → Option GoError → Option GoError
first_error (some e) later = some e
first_error none later = later

module _ ⦃dec : Decimal⦄ where
  unfoldable pub matches_cmd : Transfer dec → TransferCmd dec → Bool
  matches_cmd t cmd =
      eq_ℤ t.source_id cmd.source_id
      && eq_ℤ t.destination_id cmd.destination_id
      && dec.equal t.amount cmd.amount

module _ ⦃dec : Decimal⦄ ⦃uuid : UuidCodec⦄ where
  unfoldable pub check_key : String → Option GoError
  check_key key =
      if key == ""
      then none
      else if uuid.parses key
      then none
      else some (sentinel invalid_idempotency)

  unfoldable pub validate : TransferCmd dec → Option GoError
  unfolding first_error check_key
  validate cmd = first_error (validate_account_id cmd.source_id) (
      first_error (validate_account_id cmd.destination_id) (
        first_error
          (if eq_ℤ cmd.source_id cmd.destination_id then some (sentinel same_account) else none)
          (first_error (validate_amount cmd.amount) (check_key cmd.idempotency_key))))

  -- The part of execute after its checks: the new balances, the transfer and its two entries.
  abbrev pub settle : Querier → TransferCmd dec → Account dec → Account dec → Action (Transfer dec)
  settle q cmd source dest = do
    let new_source = dec.sub source.balance cmd.amount
    let new_dest = dec.add dest.balance cmd.amount
    update_balance q source.id new_source
    update_balance q dest.id new_dest
    let transfer : Transfer dec = record {
      id = 0;
      idempotency_key = optional_key cmd.idempotency_key;
      source_id = cmd.source_id;
      destination_id = cmd.destination_id;
      amount = cmd.amount;
      status = status_completed;
      created_at = 0;
    }
    id ← insert q transfer
    insert_ledger_entry q (record {
      id = 0;
      transfer_id = id;
      account_id = source.id;
      direction = direction_debit;
      amount = cmd.amount;
      balance_after = new_source;
      created_at = 0;
    })
    insert_ledger_entry q (record {
      id = 0;
      transfer_id = id;
      account_id = dest.id;
      direction = direction_credit;
      amount = cmd.amount;
      balance_after = new_dest;
      created_at = 0;
    })
    pure (record transfer { id = id })

  -- The part of execute after the lock, on the accounts that the lock has read.
  unfoldable pub execute_locked :
      Querier → TransferCmd dec → GoMap (Account dec) → Action (Transfer dec)
  execute_locked q cmd locked = do
    source ← or_fail (lookup cmd.source_id locked) (account_not_found_error cmd.source_id)
    dest ← or_fail (lookup cmd.destination_id locked) (account_not_found_error cmd.destination_id)
    check (
        if dec.less_than source.balance cmd.amount
        then some (sentinel insufficient_funds)
        else none)
    settle q cmd source dest

  unfoldable pub execute : Querier → TransferCmd dec → Action (Transfer dec)
  unfolding execute_locked
  execute q cmd = do
    locked ← lock_for_update q (cmd.source_id ∷ cmd.destination_id ∷ [])
    execute_locked q cmd locked

  -- What the transaction returns for the transfer that holds the key.
  unfoldable pub replay : TransferCmd dec → Transfer dec → Result (Transfer dec)
  replay cmd existing =
      if matches_cmd existing cmd then ok existing else err (sentinel idempotency_conflict)

  unfoldable pub after_lookup :
      Querier → TransferCmd dec → Option (Transfer dec) → Action (Transfer dec)
  unfolding replay
  after_lookup q cmd (some existing) w = (replay cmd existing, w)
  after_lookup q cmd none w = execute q cmd w

  -- The function that Transfer hands to WithTx.
  unfoldable pub transfer_in_tx : TransferCmd dec → Action (Transfer dec)
  unfolding after_lookup
  transfer_in_tx cmd =
      if cmd.idempotency_key == ""
      then execute tx cmd
      else find_by_idempotency_key tx cmd.idempotency_key >>= after_lookup tx cmd

  unfoldable pub or_duplicate : TransferCmd dec → Option (Transfer dec) → Result (Transfer dec)
  unfolding replay
  or_duplicate cmd none = err (sentinel duplicate_idempotency_key)
  or_duplicate cmd (some existing) = replay cmd existing

  unfoldable pub resolve_duplicate : TransferCmd dec → Action (Transfer dec)
  unfolding or_duplicate
  resolve_duplicate cmd = do
    found ← find_by_idempotency_key pool cmd.idempotency_key
    λ w. (or_duplicate cmd found, w)

  unfoldable pub lost_race : TransferCmd dec → Result (Transfer dec) → Action (Transfer dec)
  lost_race cmd (ok t) = pure t
  lost_race cmd (err e) =
      if errors_is e duplicate_idempotency_key then resolve_duplicate cmd else fail e

  unfoldable pub transfer : TransferCmd dec → Action (Transfer dec)
  unfolding lost_race
  transfer cmd = do
    check (validate cmd)
    λ w. let (r, w') = with_tx (transfer_in_tx cmd) w in lost_race cmd r w'
