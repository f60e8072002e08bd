-- ===== src/Repository/Tx.antt =====
-- internal/repository/tx.go. A transaction works on the database as it stood at BEGIN. A rollback
-- puts that back, but for the sequences, which never go back.
pub mod Outcome
pub mod Quiet
use text.Mathlib.Text.{◌==◌}
use transfer_demo.Prelude.{
  ℕ, zero, suc, Bool, true, false, ◌||◌, Option, none, some, List, [], ◌∷◌, String, if◌then◌else◌,
}
use transfer_demo.Domain.{GoError, PgError, other, wrap, errors_as_pg_error}
use transfer_demo.Result.{Result, ok, err}
use transfer_demo.Database.{Database}
use transfer_demo.Action.{Event, Fault, World, Action, fault_error, this_event, later_events}

abbrev pub max_tx_retries : ℕ
max_tx_retries = 3

abbrev retryable_code : Option PgError → Bool
retryable_code none = false
retryable_code (some e) = e.code == "40001" || e.code == "40P01"

unfoldable pub is_retryable : GoError → Bool
unfolding errors_as_pg_error
is_retryable e = retryable_code (errors_as_pg_error e)

abbrev pub roll_back : Database → Database → Database
roll_back before after = record before {
  deposits_seq = after.deposits_seq;
  transfers_seq = after.transfers_seq;
  ledger_entries_seq = after.ledger_entries_seq;
}

module _ {A : Type 0} where
  -- `tx.Commit(ctx)`. A commit that reports a fault may have landed.
  unfoldable pub commit_reply : Option Fault → Bool → A → Database → World → Result A × World
  commit_reply none landed a before w = (ok a, w)
  commit_reply (some f) landed a before w = (
    err (wrap "commit" (fault_error f)),
    record w { db = if landed then w.db else roll_back before w.db },
  )

  unfoldable pub finish : Result A → Database → World → Result A × World
  unfolding commit_reply
  finish (err e) before w = (err e, record w { db = roll_back before w.db })
  finish (ok a) before w =
      let e = this_event w.events in
      commit_reply e.fault e.landed a before (record w { events = later_events w.events })

  unfoldable pub begin_reply : Option Fault → Action A → Action A
  unfolding finish
  begin_reply (some f) fn w = (err (wrap "begin" (fault_error f)), w)
  begin_reply none fn w = let (r, w') = fn w in finish r w.db w'

  unfoldable pub run_once : Action A → Action A
  unfolding begin_reply
  run_once fn w =
      let e = this_event w.events in
      begin_reply e.fault fn (record { db = e.others w.db; events = later_events w.events })

  -- The loop of WithTx, by the attempts that are left.
  unfoldable pub attempts : ℕ → GoError → Action A → Action A
  attempts zero last_err fn w = (err (wrap "transaction failed after 3 attempts" last_err), w)
  attempts (suc left) last_err fn w =
      let (r, w') = run_once fn w in
      elim r [
        | ok a ↦ (ok a, w')
        | err e ↦ elim (is_retryable e) [ true ↦ attempts left e fn w' | false ↦ (err e, w') ]
      ]

  -- `lastErr` is nil at first, and set before it is read.
  unfoldable pub with_tx : Action A → Action A
  unfolding attempts
  with_tx fn = attempts max_tx_retries (other "%!w(<nil>)") fn
