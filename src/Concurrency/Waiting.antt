-- ===== src/Concurrency/Waiting.antt =====
-- While a session waits, one can move: the order of the locks rules out a cycle.
use transfer_demo.Prelude.{
  ℕ, ◌<◌, ◌≤◌, ◌≡◌, refl, ◌∙◌, inl, inr, Bool-cases, Option-cases, true, false, none, some, List,
  [], ◌∷◌, ℤ, ◌==◌, arith, ◌≤ℤ◌, leb,
}
use transfer_demo.Decimal.{Decimal}
use transfer_demo.Uuid.{UuidCodec}
use transfer_demo.Database.{Database, AccountRow, find_account, has_account}
use transfer_demo.Service.Transfers.{TransferCmd}
use transfer_demo.Concurrency.{
  Phase, idle, locking, ended, holds, System, update, Move, lock, run, move, Reach, start, next,
  begin, leave, open_account,
}
use transfer_demo.Concurrency.Invariant.{IsConsistent}
use transfer_demo.Concurrency.Search.{
  first_of, waits, Highest, find_below, not_both, missing, above_held,
}

pub update_beyond : (f : ℕ → Phase) (i n j : ℕ) (p : Phase) → i < n → n ≤ j → update f i p j ≡ f j
update_beyond f i n j p lt le = rw (ne_of_lt) refl
  where
    ne_of_lt : (j == i) ≡ false
    ne_of_lt = ground arith

pub nothing_left : (ids : List ℤ) → first_of ids ≡ none → ids ≡ []
nothing_left [] e = refl
nothing_left (id ∷ ids) e = cc

waiting_session :
    (p : Phase) {id : ℤ}
    → waits p ≡ some id
    → (rows : List AccountRow) × (ids : List ℤ) × (p ≡ locking rows (id ∷ ids))
waiting_session idle e = cc
waiting_session (locking rows []) e = cc
waiting_session (locking rows (k ∷ ids)) e = (rows, ids, cc)
waiting_session ended e = cc

holding_session :
    (p : Phase) (id : ℤ)
    → holds p id ≡ true
    → (rows : List AccountRow) × (ids : List ℤ) × (p ≡ locking rows ids)
      × (has_account id rows ≡ true)
holding_session idle id e = cc
holding_session (locking rows ids) id e = (rows, ids, refl, e)
holding_session ended id e = cc

module _ ⦃dec : Decimal⦄ ⦃uuid : UuidCodec⦄ (cmd : ℕ → TransferCmd dec) (n : ℕ) where
  -- From the number `n` on no session has begun.
  pub Move-idle :
      {s t : System} (j : ℕ) → n ≤ j → Move cmd n s t → s.phase j ≡ idle → t.phase j ≡ idle
  Move-idle {s} j le (lock i rows id ids r lt e free found) h =
      update_beyond s.phase i n j _ lt le ∙ h
  Move-idle {s} j le (run i rows events lt e) h = update_beyond s.phase i n j _ lt le ∙ h

  pub Reach-idle :
      {db : Database} {s : System} → Reach cmd n db s → (j : ℕ) → n ≤ j → s.phase j ≡ idle
  Reach-idle start j le = refl
  Reach-idle (next {s} r (begin i lt e)) j le =
      update_beyond s.phase i n j _ lt le ∙ Reach-idle r j le
  Reach-idle (next r (move m)) j le = Move-idle j le m (Reach-idle r j le)
  Reach-idle (next {s} r (leave i lt)) j le =
      update_beyond s.phase i n j _ lt le ∙ Reach-idle r j le
  Reach-idle (next r (open_account id balance db o)) j le = Reach-idle r j le

  -- Free among the sessions that take part is free.
  free_of_all :
      (s : System) (id : ℤ)
      → ((j : ℕ) → n ≤ j → s.phase j ≡ idle)
      → ((j : ℕ) → j < n → holds (s.phase j) id ≡ false)
      → (j : ℕ) → holds (s.phase j) id ≡ false
  free_of_all s id beyond free j = elim (Bool-cases (leb n j)) [
    | inl le ↦ rw (beyond j (ground arith)) refl
    | inr gt ↦ free j (ground arith)
  ]

  -- The session that holds the greatest account waited for can run.
  top_runs :
      (s : System) (j : ℕ) (id : ℤ)
      → IsConsistent s
      → j < n
      → ((k : ℤ) → waits (s.phase j) ≡ some k → k ≤ℤ id)
      → (rows : List AccountRow) (ids : List ℤ) → s.phase j ≡ locking rows ids
      → has_account id rows ≡ true
      → (t : System) × Move cmd n s t
  top_runs s j id h lt top rows [] e held = (_, run j rows [] lt e)
  top_runs s j id h lt top rows (k ∷ ids) e held =
      let mine = rw e at (h.holding j) in
      absurd (not_both id k (above_held rows id k mine.queued.0 held) (top k (rw e refl)))

  pub waiting_moves :
      (s : System)
      → IsConsistent s
      → ((j : ℕ) → n ≤ j → s.phase j ≡ idle)
      → (i : ℕ) (id : ℤ) → Highest n s.phase i id
      → (t : System) × Move cmd n s t
  waiting_moves s h beyond i id (lt, w, top) =
      let (rows, ids, e) = waiting_session (s.phase i) w in
      let mine = rw e at (h.holding i) in
      elim (find_below n (λ j. holds (s.phase j) id)) [
        | inl free ↦ elim (Option-cases (find_account id s.db.accounts)) [
          | inl gone ↦ absurd (missing gone mine.exist.0)
          | inr (r, found) ↦ (_, lock i rows id ids r lt e (free_of_all s id beyond free) found)
        ]
        | inr (j, lt', hj) ↦
            let (rows', ids', e', held) = holding_session (s.phase j) id hj in
            top_runs s j id h lt' (top j lt') rows' ids' e' held
      ]
