-- ===== src/Concurrency/Schedules.antt =====
-- Every schedule of the sessions comes to an end.
use transfer_demo.Prelude.{
  ℕ, zero, suc, ◌+◌, ◌*◌, ◌<◌, ◌≤◌, ◌≡◌, refl, ◌⊎◌, inl, inr, Bool-cases, false, none, some, Option,
  List, [], ◌∷◌, ℤ, ◌==◌, eq_ℤ_iff, arith, length,
}
use transfer_demo.Decimal.{Decimal, DecimalLaws, IsScaled}
use transfer_demo.Uuid.{UuidCodec}
use transfer_demo.Database.{Database, AccountRow, find_account}
use transfer_demo.Database.Accounts.{IsUnique}
use transfer_demo.Database.Statements.{among, member, insert_by_id, order_by_id}
use transfer_demo.Audit.Soundness.{IsSound}
use transfer_demo.Service.Transfers.{TransferCmd}
use transfer_demo.Concurrency.{
  Phase, locking, ended, System, update, ids_of, lock_order, Move, lock, run, Step, begin, move,
  leave, open_account, Reach, start, next,
}
use transfer_demo.Concurrency.Steps.{Reach-IsConsistent}
use transfer_demo.Concurrency.Search.{find_below}
use transfer_demo.Concurrency.Progress.{
  is_locking, work, total, Moves, none_left, one_more, Move-shrinks, no_deadlock,
}

length-insert_by_id :
    (r : AccountRow) (rows : List AccountRow)
    → length (ids_of (insert_by_id r rows)) ≡ suc (length (ids_of rows))
unfolding insert_by_id
length-insert_by_id r [] = refl
length-insert_by_id r (s ∷ rows) = ground (arith, length-insert_by_id r rows)

length-order_by_id :
    (rows : List AccountRow) → length (ids_of (order_by_id rows)) ≡ length (ids_of rows)
unfolding order_by_id
length-order_by_id [] = refl
length-order_by_id (r ∷ rows) =
    omega (arith, length-insert_by_id r (order_by_id rows), length-order_by_id rows)

abbrev one_if_found : Option AccountRow → ℕ
one_if_found none = 0
one_if_found (some r) = 1

few : (o : Option AccountRow) → one_if_found o ≤ 1
few none = omega arith
few (some r) = omega arith

-- A table with unique ids has one row at most for each of two ids.
length-among :
    (a b : ℤ) (rows : List AccountRow)
    → IsUnique rows
    → length (ids_of (among (a ∷ b ∷ []) rows))
      ≤ one_if_found (find_account a rows) + one_if_found (find_account b rows)
unfolding among member
length-among a b [] u = omega arith
length-among a b (r ∷ rows) u = ground (
  arith,
  eq_ℤ_iff r.id a,
  eq_ℤ_iff r.id b,
  eq_ℤ_iff a r.id,
  eq_ℤ_iff b r.id,
  u,
  length-among a b rows,
)

module _ ⦃dec : Decimal⦄ ⦃uuid : UuidCodec⦄ where
  length-lock_order :
      (cmd : TransferCmd dec) (db : Database)
      → IsUnique db.accounts
      → length (lock_order cmd db) ≤ 2
  length-lock_order cmd db u = omega (
    arith,
    length-order_by_id (among (cmd.source_id ∷ cmd.destination_id ∷ []) db.accounts),
    length-among cmd.source_id cmd.destination_id db.accounts u,
    few (find_account cmd.source_id db.accounts),
    few (find_account cmd.destination_id db.accounts),
  )

  module _ (cmd : ℕ → TransferCmd dec) (n : ℕ) where
    abbrev IsShort : (ℕ → Phase) → Type 0
    IsShort phase = (i : ℕ) → work (phase i) ≤ 3

    IsShort-update :
        (phase : ℕ → Phase) (k : ℕ) (p : Phase)
        → work p ≤ 3
        → IsShort phase
        → IsShort (update phase k p)
    IsShort-update phase k p h all i = elim (Bool-cases (i == k)) [
      | inl e ↦ rw e h
      | inr e ↦ rw e (all i)
    ]

    Move-IsShort : {s t : System} → Move cmd n s t → IsShort s.phase → IsShort t.phase
    Move-IsShort {s} (lock i rows id ids r lt e free found) all =
        let before = rw e at (all i) in
        IsShort-update s.phase i (locking (r ∷ rows) ids) (omega (arith, before)) all
    Move-IsShort {s} (run i rows events lt e) all = IsShort-update s.phase i ended (omega arith) all

    Step-IsShort :
        {s t : System} → IsUnique s.db.accounts → Step cmd n s t → IsShort s.phase → IsShort t.phase
    Step-IsShort {s} u (begin i lt e) all =
        IsShort-update s.phase i (locking [] (lock_order (cmd i) s.db))
          (omega (arith, length-lock_order (cmd i) s.db u)) all
    Step-IsShort u (move m) all = Move-IsShort m all
    Step-IsShort {s} u (leave i lt) all = IsShort-update s.phase i ended (omega arith) all
    Step-IsShort u (open_account id balance db o) all = all

    total-IsShort : (k : ℕ) (phase : ℕ → Phase) → IsShort phase → total k phase ≤ 3 * k
    total-IsShort zero phase all = omega arith
    total-IsShort (suc k) phase all = omega (arith, total-IsShort k phase all, all k)

    abbrev pub moves_in : {s t : System} → Moves cmd n s t → ℕ
    moves_in none_left = 0
    moves_in (one_more m ms) = suc (moves_in ms)

    moves_in-total :
        {s t : System} (ms : Moves cmd n s t) → moves_in ms + total n t.phase ≤ total n s.phase
    moves_in-total none_left = omega arith
    moves_in-total (one_more m ms) = omega (arith, moves_in-total ms, Move-shrinks cmd n m)

    Moves-Reach :
        {db : Database} {s t : System} → Reach cmd n db s → Moves cmd n s t → Reach cmd n db t
    Moves-Reach reach none_left = reach
    Moves-Reach reach (one_more m ms) = Moves-Reach (next reach (move m)) ms

    module _ (laws : DecimalLaws dec) (scaled : (i : ℕ) → IsScaled dec (cmd i).amount)
        {db : Database} (sound : IsSound db) where
      Reach-IsShort : {s : System} → Reach cmd n db s → IsShort s.phase
      Reach-IsShort start i = omega arith
      Reach-IsShort (next reach step) i =
          Step-IsShort (Reach-IsConsistent laws cmd n scaled sound reach).sound.unique step
            (Reach-IsShort reach) i

      -- From every state that is reached, from sound data and with amounts of at most 18 decimals, no
      -- schedule has more than three moves for each session; and where a schedule has come to,
      -- either no session holds or waits for a lock, or some session can move.
      pub schedules_end :
          {s t : System}
          → Reach cmd n db s
          → (ms : Moves cmd n s t)
          → (moves_in ms ≤ 3 * n)
            × (((i : ℕ) → i < n → is_locking (t.phase i) ≡ false) ⊎ ((u : System) × Move cmd n t u))
      schedules_end {s} {t} reach ms = (
        omega (arith, moves_in-total ms, total-IsShort n s.phase (Reach-IsShort reach)),
        elim (find_below n (λ i. is_locking (t.phase i))) [
          | inl rest ↦ inl rest
          | inr (i, lt, e) ↦ inr (no_deadlock cmd n laws scaled sound (Moves-Reach reach ms) i lt e)
        ],
      )
