-- ===== src/Concurrency/Steps.antt =====
-- Every step keeps the data sound, the held rows current, and the locks exclusive.
use mathlib.Core.Bool.{false≢true}
use transfer_demo.Prelude.{
  ℕ, ◌≡◌, refl, sym, ◌∙◌, ◌⊎◌, inl, inr, Bool, Bool-cases, true, false, List, [], ◌∷◌, ℤ, pos, ◌==◌,
  ==_iff, eq_ℤ, eq_ℤ_iff, ltb_ℤ, if◌then◌else◌,
}
use transfer_demo.Decimal.{Decimal, DecimalLaws, IsScaled}
use transfer_demo.Uuid.{UuidCodec}
use transfer_demo.Domain.{Transfer}
use transfer_demo.Database.{Database, AccountRow, has_account}
use transfer_demo.Database.Accounts.{IsUnique, IsUnique-among}
use transfer_demo.Database.Statements.{among, order_by_id}
use transfer_demo.Database.Effects.{with_account, with_deposit}
use transfer_demo.Action.Orderly.{SeqLe}
use transfer_demo.Repository.Tx.{roll_back}
use transfer_demo.Audit.Soundness.{IsSound, roll_back-IsSound}
use transfer_demo.Audit.Soundness.Openings.{opened-IsSound}
use transfer_demo.Service.Accounts.Effect.{Opened}
use transfer_demo.Service.Transfers.{TransferCmd}
use transfer_demo.Service.Transfers.Outcome.{Moved-IsSound}
use transfer_demo.Concurrency.{
  locking, ended, rows_of, ids_of, waiting_of, holds, System, update, lock_order, Move, lock, run,
  Step, begin, move, leave, open_account, Reach, start, next,
}
use transfer_demo.Concurrency.Locks.{IsAscending-order_by_id, Exist-lock_order}
use transfer_demo.Concurrency.Rows.{Spares, Spares-refl, IsHolding, IsHolding_mono, IsQueued}
use transfer_demo.Concurrency.Ends.{Landed, run_locked-Ended}
use transfer_demo.Concurrency.Invariant.{
  IsConsistent, HoldsIn, IsHolding-update, Exclusive-update, quiet_update, lock-IsConsistent,
  moved_Spares, fresh_Spares, nothing_held, held_by_none,
}

-- The session `k`, which held rows, has ended, and the table has changed outside of the others' rows.
end_IsConsistent :
    (s : System) (k : ℕ) (db : Database)
    → IsSound db
    → ((i : ℕ) → (i == k) ≡ false → Spares (rows_of (s.phase i)) s.db.accounts db.accounts)
    → IsConsistent s
    → IsConsistent (record { db = db; phase = update s.phase k ended })
end_IsConsistent s k db sound spares h = record {
  sound = sound;
  holding =
      IsHolding-update s.phase k ended s.db.accounts db.accounts nothing_held spares h.holding;
  exclusive = Exclusive-update s.phase k ended (λ id e. held_by_none s k id [] refl e) h.exclusive;
}

begun :
    (table : List AccountRow) (ids : List ℤ)
    → IsUnique table
    → IsHolding table [] (ids_of (order_by_id (among ids table)))
begun table ids u = record {
  current = tt;
  unique = tt;
  queued = queued_empty (ids_of (order_by_id (among ids table)));
  ascending = IsAscending-order_by_id (among ids table) (IsUnique-among ids table u);
  exist = Exist-lock_order ids table;
}
  where
    queued_empty : (ids : List ℤ) → IsQueued [] ids
    queued_empty [] = tt
    queued_empty (i ∷ ids) = (tt, queued_empty ids)

open_IsConsistent :
    (s : System) (id balance : ℤ) (db : Database)
    → Opened id balance s.db db
    → IsConsistent s
    → IsConsistent (record s { db = db })
open_IsConsistent s id balance db o h = rw o.written (record {
  sound = opened-IsSound id balance s.db h.sound o.fresh o.nonneg;
  holding = λ i. holding_opened i (ltb_ℤ (pos 0) balance);
  exclusive = h.exclusive;
})
  where
    holding_opened :
        (i : ℕ) (b : Bool)
        → IsHolding
            (if b
              then with_deposit id balance (with_account id balance s.db)
              else with_account id balance s.db).accounts
            (rows_of (s.phase i))
            (waiting_of (s.phase i))
    holding_opened i true =
        IsHolding_mono (rows_of (s.phase i)) (waiting_of (s.phase i)) s.db.accounts _
          (fresh_Spares (rows_of (s.phase i)) s.db.accounts _ o.fresh (h.holding i).current)
          (h.holding i)
    holding_opened i false =
        IsHolding_mono (rows_of (s.phase i)) (waiting_of (s.phase i)) s.db.accounts _
          (fresh_Spares (rows_of (s.phase i)) s.db.accounts _ o.fresh (h.holding i).current)
          (h.holding i)

module _ ⦃dec : Decimal⦄ ⦃uuid : UuidCodec⦄ (laws : DecimalLaws dec) (cmd : ℕ → TransferCmd dec)
    (n : ℕ) where
  -- The accounts of the session `k`, as seen by another one.
  apart :
      (s : System) (k : ℕ) (rows : List AccountRow) (a : ℤ) (i : ℕ)
      → s.phase k ≡ locking rows []
      → has_account a rows ≡ true
      → IsConsistent s
      → (i == k) ≡ false
      → (j : ℤ) → holds (s.phase i) j ≡ true
      → eq_ℤ a j ≡ false
  apart s k rows a i e held h other j hj = elim (Bool-cases (eq_ℤ a j)) [
    | inl same ↦ absurd (
        false≢true (
          sym other
          ∙ (==_iff i k).1 (h.exclusive i k j hj (rw e (rw ((eq_ℤ_iff a j).0 same) at held)))))
    | inr ne ↦ ne
  ]

  run_IsConsistent :
      (s : System) (k : ℕ) (rows : List AccountRow) (db : Database)
      → s.phase k ≡ locking rows []
      → ((after : Database) × SeqLe s.db after × (db ≡ roll_back s.db after))
        ⊎ ((t : Transfer dec) × Landed (cmd k) rows s.db t db)
      → IsConsistent s
      → IsConsistent (record { db = db; phase = update s.phase k ended })
  run_IsConsistent s k rows db e (inl (after, le, same)) h =
      end_IsConsistent s k db (rw same (roll_back-IsSound s.db after le h.sound))
        (λ i other. rw same (Spares-refl (rows_of (s.phase i)) s.db.accounts)) h
  run_IsConsistent s k rows db e (inr (t, (moved, held_s, held_d))) h =
      end_IsConsistent s k db (Moved-IsSound laws (cmd k) s.db db t h.sound moved)
        (λ i other. rw moved.written (
          moved_Spares (rows_of (s.phase i)) s.db.accounts (cmd k).source_id (cmd k).destination_id
            _ _ s.db.now
            (λ j hj. (
              apart s k rows (cmd k).source_id i e held_s h other j hj,
              apart s k rows (cmd k).destination_id i e held_d h other j hj,
            ))))
        h

  module _ (acceptable : (i : ℕ) → IsScaled dec (cmd i).amount) where
    Move-IsConsistent : {s t : System} → Move cmd n s t → IsConsistent s → IsConsistent t
    Move-IsConsistent {s} (lock i rows id ids r lt e free found) h =
        lock-IsConsistent s i rows id ids r e free found h
    Move-IsConsistent {s} (run i rows events lt e) h =
        let mine : HoldsIn s.db.accounts (locking rows []) = rw e at (h.holding i) in
        run_IsConsistent s i rows _ e
          (run_locked-Ended (cmd i) rows laws s.db events (acceptable i) mine.unique mine.current) h

    Step-IsConsistent : {s t : System} → Step cmd n s t → IsConsistent s → IsConsistent t
    Step-IsConsistent {s} (begin i lt e) h =
        quiet_update s i (locking [] (lock_order (cmd i) s.db)) refl
          (begun s.db.accounts ((cmd i).source_id ∷ (cmd i).destination_id ∷ []) h.sound.unique) h
    Step-IsConsistent (move m) h = Move-IsConsistent m h
    Step-IsConsistent {s} (leave i lt) h = quiet_update s i ended refl nothing_held h
    Step-IsConsistent {s} (open_account id balance db o) h = open_IsConsistent s id balance db o h

    pub Reach-IsConsistent :
        {db : Database} {s : System} → IsSound db → Reach cmd n db s → IsConsistent s
    Reach-IsConsistent sound start = record {
      sound = sound;
      holding = λ i. nothing_held;
      exclusive = λ i j id e f. cc;
    }
    Reach-IsConsistent sound (next r st) = Step-IsConsistent st (Reach-IsConsistent sound r)
