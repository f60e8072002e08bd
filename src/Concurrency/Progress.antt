-- ===== src/Concurrency/Progress.antt =====
-- Sessions that hold locks come to an end.
use transfer_demo.Prelude.{
  ℕ, zero, suc, ◌+◌, ◌<◌, ◌≤◌, ◌≡◌, refl, ap, inl, inr, Bool, Bool-cases, true, false, List, [],
  ◌∷◌, ℤ, ◌==◌, ==_iff, arith, length,
}
use transfer_demo.Decimal.{Decimal, DecimalLaws, IsScaled}
use transfer_demo.Uuid.{UuidCodec}
use transfer_demo.Database.{Database, AccountRow}
use transfer_demo.Audit.Soundness.{IsSound}
use transfer_demo.Service.Transfers.{TransferCmd}
use transfer_demo.Concurrency.{
  Phase, idle, locking, ended, System, update, Move, lock, run, move, Reach, next,
}
use transfer_demo.Concurrency.Steps.{Reach-IsConsistent}
use transfer_demo.Concurrency.Search.{highest, find_below}
use transfer_demo.Concurrency.Waiting.{waiting_moves, nothing_left, Reach-idle}

abbrev pub is_locking : Phase → Bool
is_locking idle = false
is_locking (locking rows ids) = true
is_locking ended = false

locking_session :
    (p : Phase)
    → is_locking p ≡ true
    → (rows : List AccountRow) × (ids : List ℤ) × (p ≡ locking rows ids)
locking_session idle e = cc
locking_session (locking rows ids) e = (rows, ids, refl)
locking_session ended e = cc

-- The moves that a session has left: its locks, and the run.
abbrev pub work : Phase → ℕ
work idle = 0
work (locking rows ids) = suc (length ids)
work ended = 0

abbrev pub total : ℕ → (ℕ → Phase) → ℕ
total zero phase = 0
total (suc n) phase = total n phase + work (phase n)

total-update_beyond :
    (n : ℕ) (f : ℕ → Phase) (i : ℕ) (p : Phase) → n ≤ i → total n (update f i p) ≡ total n f
total-update_beyond zero f i p le = refl
total-update_beyond (suc n) f i p le =
    let other : (n == i) ≡ false = ground arith in
    rw (total-update_beyond n f i p (omega arith), other) refl

total-update :
    (n : ℕ) (f : ℕ → Phase) (i : ℕ) (p : Phase)
    → i < n
    → total n (update f i p) + work (f i) ≡ total n f + work p
total-update zero f i p lt = elim lt [ ]
total-update (suc n) f i p lt = elim (Bool-cases (n == i)) [
  | inl e ↦
      let same : n ≡ i = (==_iff n i).0 e in
      rw e
        (omega (arith, total-update_beyond n f i p (omega arith), ap (λ (k : ℕ). work (f k)) same))
  | inr e ↦ let lt' : i < n = ground arith in rw e (omega (arith, total-update n f i p lt'))
]

fewer : (a b : ℕ) → a < b → ¬ (b ≤ 0)
fewer a b h = omega arith

-- Moves, one after another.
pub data Moves ⦃dec : Decimal⦄ ⦃uuid : UuidCodec⦄ (cmd : ℕ → TransferCmd dec) (n : ℕ)
    : System → System → Type 0 where
  none_left : {s : System} → Moves cmd n s s
  one_more : {s t u : System} → Move cmd n s t → Moves cmd n t u → Moves cmd n s u

module _ ⦃dec : Decimal⦄ ⦃uuid : UuidCodec⦄ (cmd : ℕ → TransferCmd dec) (n : ℕ) where
  -- A lock or a run leaves the sessions fewer moves.
  pub Move-shrinks : {s t : System} → Move cmd n s t → total n t.phase < total n s.phase
  Move-shrinks {s} (lock i rows id ids r lt e free found) =
      omega (arith, total-update n s.phase i (locking (r ∷ rows) ids) lt, ap work e)
  Move-shrinks {s} (run i rows events lt e) =
      omega (arith, total-update n s.phase i ended lt, ap work e)

  module _ (laws : DecimalLaws dec) (scaled : (i : ℕ) → IsScaled dec (cmd i).amount) {db : Database}
      (sound : IsSound db) where
    -- There is no deadlock, from sound data and with amounts of at most 18 decimals: in every state
    -- that is reached, while one session holds or waits for locks, some session can lock its next row
    -- or run to its end.
    pub no_deadlock :
        {s : System}
        → Reach cmd n db s
        → (i : ℕ) → i < n
        → is_locking (s.phase i) ≡ true
        → (t : System) × Move cmd n s t
    no_deadlock {s} reach i lt e =
        let h = Reach-IsConsistent laws cmd n scaled sound reach in
        elim (highest n s.phase) [
          | inl quiet ↦
              let (rows, ids, e') = locking_session (s.phase i) e in
              let last : ids ≡ [] = nothing_left ids (rw e' at (quiet i lt)) in
              (_, run i rows [] lt (rw last at e'))
          | inr (k, id, top) ↦ waiting_moves cmd n s h (Reach-idle cmd n reach) k id top
        ]

    sessions_end_within :
        (m : ℕ) {s : System}
        → Reach cmd n db s
        → total n s.phase ≤ m
        → (t : System) × Moves cmd n s t × ((i : ℕ) → i < n → is_locking (t.phase i) ≡ false)
    sessions_end_within zero {s} reach small = elim (find_below n (λ i. is_locking (s.phase i))) [
      | inl rest ↦ (s, none_left, rest)
      | inr (i, lt, e) ↦
          let (t, m) = no_deadlock reach i lt e in
          absurd (fewer (total n t.phase) (total n s.phase) (Move-shrinks m) small)
    ]
    sessions_end_within (suc m) {s} reach small =
        elim (find_below n (λ i. is_locking (s.phase i))) [
          | inl rest ↦ (s, none_left, rest)
          | inr (i, lt, e) ↦
              let (t, m') = no_deadlock reach i lt e in
              let shrinks : total n t.phase < total n s.phase = Move-shrinks m' in
              let (u, ms, rest) = sessions_end_within m (next reach (move m')) (omega arith) in
              (u, one_more m' ms, rest)
        ]

    -- From every state that is reached, from sound data and with amounts of at most 18 decimals, there
    -- are moves of the sessions after which none holds or waits for a lock.
    pub sessions_end :
        {s : System}
        → Reach cmd n db s
        → (t : System) × Moves cmd n s t × ((i : ℕ) → i < n → is_locking (t.phase i) ≡ false)
    sessions_end {s} reach = sessions_end_within (total n s.phase) reach (omega arith)
