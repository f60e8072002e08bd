-- ===== src/Tests/Contended.antt =====
-- Two transfers between the same accounts in opposite directions, at the same time and under one key.
use transfer_demo.Prelude.{
  ◌≤◌, ◌*◌, ◌⊎◌, ◌&&◌, some, ℕ, zero, suc, ◌<◌, ◌≡◌, refl, false, List, [], ◌∷◌, ℤ, pos, eq_ℤ,
  arith,
}
use transfer_demo.Decimal.{IsScaled}
use transfer_demo.Database.Statements.{order_by_id, insert_by_id, among, member}
use transfer_demo.Audit.Soundness.{IsSound}
use transfer_demo.Service.Transfers.{TransferCmd}
use transfer_demo.Concurrency.{
  Phase, idle, locking, rows_of, holds, System, update, Move, lock, begin, move, Reach, start, next,
  run_locked, run, ended,
}
use transfer_demo.Concurrency.Rows.{Current}
use transfer_demo.Concurrency.Bank.{Operation, has_session}
use transfer_demo.Concurrency.Once.{once_per_key}
use transfer_demo.Database.{key_taken}
use transfer_demo.Concurrency.Serial.{Explains, serializable}
use transfer_demo.Concurrency.Safety.{interleaving-IsSound, no_lost_update}
use transfer_demo.Concurrency.Progress.{
  is_locking, Moves, none_left, one_more, no_deadlock, sessions_end,
}
use transfer_demo.Concurrency.Schedules.{moves_in, schedules_end}
use transfer_demo.Tests.Externals.{fixed, fixed_laws, one_digit, units}
use transfer_demo.Tests.Runs.{two_accounts, order}
use transfer_demo.Tests.Witnesses.{opened-Sound}
use transfer_demo.Tests.Refused.{first_row, second_row}

abbrev back : TransferCmd fixed
back = record {
  source_id = pos 2;
  destination_id = pos 1;
  amount = units (pos 3);
  idempotency_key = "k1";
}

abbrev cmds : ℕ → TransferCmd fixed
cmds zero = order
cmds (suc i) = back

cmds-IsScaled : (i : ℕ) → IsScaled fixed (cmds i).amount
cmds-IsScaled zero = omega arith
cmds-IsScaled (suc i) = omega arith

abbrev both : List ℤ
both = pos 1 ∷ pos 2 ∷ []

-- Both statements have begun.
abbrev begun : ℕ → Phase
begun = update (update (λ _. idle) 0 (locking [] both)) 1 (locking [] both)

-- The first holds account 1, for which the second waits.
abbrev contended : System
contended = record {
  db = two_accounts;
  phase = update begun 0 (locking (first_row ∷ []) (pos 2 ∷ []));
}

begun_reached : Reach cmds 2 two_accounts (record { db = two_accounts; phase = begun })
unfolding order_by_id insert_by_id among member eq_ℤ
begun_reached = next (next start (begin 0 (omega arith) refl)) (begin 1 (omega arith) refl)

begun_free : (j : ℕ) → holds (begun j) (pos 1) ≡ false
begun_free zero = refl
begun_free (suc zero) = refl
begun_free (suc (suc j)) = ground arith

first_lock : Move cmds 2 (record { db = two_accounts; phase = begun }) contended
unfolding eq_ℤ
first_lock = lock 0 [] (pos 1) (pos 2 ∷ []) first_row (omega arith) refl begun_free refl

contended_reached : Reach cmds 2 two_accounts contended
contended_reached = next begun_reached (move first_lock)

interleaving-IsSound_example : IsSound contended.db
interleaving-IsSound_example =
    interleaving-IsSound fixed_laws cmds 2 cmds-IsScaled opened-Sound contended_reached

no_lost_update_example : Current two_accounts.accounts (rows_of (contended.phase 0))
no_lost_update_example =
    no_lost_update fixed_laws cmds 2 cmds-IsScaled opened-Sound contended_reached 0

no_deadlock_example : (t : System) × Move cmds 2 contended t
no_deadlock_example =
    no_deadlock cmds 2 fixed_laws cmds-IsScaled opened-Sound contended_reached 1 (omega arith) refl

sessions_end_example :
    (t : System) × Moves cmds 2 contended t × ((i : ℕ) → i < 2 → is_locking (t.phase i) ≡ false)
sessions_end_example = sessions_end cmds 2 fixed_laws cmds-IsScaled opened-Sound contended_reached

-- The first holds both rows, and then runs to its end.
abbrev granted : System
granted = record contended {
  phase = update contended.phase 0 (locking (second_row ∷ first_row ∷ []) []);
}

second_free : (j : ℕ) → holds (contended.phase j) (pos 2) ≡ false
unfolding eq_ℤ
second_free zero = refl
second_free (suc zero) = refl
second_free (suc (suc j)) = ground arith

second_lock : Move cmds 2 contended granted
unfolding eq_ℤ
second_lock = lock 0 (first_row ∷ []) (pos 2) [] second_row (omega arith) refl second_free refl

abbrev two_locks : Moves cmds 2 (record { db = two_accounts; phase = begun }) granted
two_locks = one_more first_lock (one_more second_lock none_left)

schedules_end_example :
    (moves_in cmds 2 two_locks ≤ 3 * 2)
    × (((i : ℕ) → i < 2 → is_locking (granted.phase i) ≡ false)
        ⊎ ((u : System) × Move cmds 2 granted u))
schedules_end_example =
    schedules_end cmds 2 fixed_laws cmds-IsScaled opened-Sound begun_reached two_locks

abbrev carried_out : System
carried_out = record {
  db =
      (run_locked order (second_row ∷ first_row ∷ [])
        (record { db = two_accounts; events = [] })).1.db;
  phase = update granted.phase 0 ended;
}

carried_out_reached : Reach cmds 2 two_accounts carried_out
carried_out_reached =
    next (next contended_reached (move second_lock))
      (move (run 0 (second_row ∷ first_row ∷ []) [] (omega arith) refl))

serializable_example : (ops : List Operation) × Explains cmds 2 two_accounts ops carried_out
serializable_example =
    serializable cmds 2 two_accounts fixed_laws cmds-IsScaled opened-Sound carried_out_reached

-- A history of the run.
abbrev history : (ops : List Operation) × Explains cmds 2 two_accounts ops carried_out
history = serializable cmds 2 two_accounts fixed_laws cmds-IsScaled opened-Sound carried_out_reached

once_per_key_example :
    ((has_session 0 history.0 && has_session 1 history.0) ≡ false)
    × ((has_session 0 history.0 && key_taken (some 1) two_accounts.transfers) ≡ false)
once_per_key_example =
    once_per_key fixed_laws cmds 2 cmds-IsScaled opened-Sound carried_out_reached history.0
      history.1 0 1 1 (λ e. omega arith) refl refl
