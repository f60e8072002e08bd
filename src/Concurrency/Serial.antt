-- ===== src/Concurrency/Serial.antt =====
-- Every interleaving against the abstract state: a serial history of the sessions that have moved.
use transfer_demo.Prelude.{
  ltb_ℤ, pos, ℕ, ◌<◌, ◌≡◌, ◌≢◌, refl, sym, ap, ◌∙◌, ◌⊎◌, inl, inr, false, some, List, [], ◌∷◌, ◌++◌,
  ℤ, ◌==◌, ==_iff, Bool-cases,
}
use transfer_demo.Decimal.{Decimal, DecimalLaws, IsScaled}
use transfer_demo.Uuid.{UuidCodec}
use transfer_demo.Domain.{Transfer}
use transfer_demo.Database.{Database, AccountRow}
use transfer_demo.Action.Orderly.{SeqLe}
use transfer_demo.Repository.Tx.{roll_back}
use transfer_demo.Audit.Soundness.{IsSound}
use transfer_demo.Service.Accounts.Effect as Effect
use transfer_demo.Service.Accounts.Effect.{Opened}
use transfer_demo.Service.Transfers.{TransferCmd}
use transfer_demo.Concurrency.{
  Phase, idle, locking, ended, System, update, lock, run, Step, begin, move, leave, open_account,
  Reach, start, next,
}
use transfer_demo.Concurrency.Ends.{Landed, run_locked-Ended}
use transfer_demo.Concurrency.Invariant.{HoldsIn}
use transfer_demo.Concurrency.Steps.{Reach-IsConsistent}
use transfer_demo.Concurrency.Bank.{
  Operation, Entry, transferred, opened, serial, transfers_by, has_session, view, recorded,
  apply_to,
}
use transfer_demo.Concurrency.Bank.View.{view-move_between, view-open_at}

-- The sessions of the history are among the `n`, have ended, and stand in it once.
abbrev pub Served : ℕ → (ℕ → Phase) → List Operation → Type 0
Served n phase [] = Unit
Served n phase (transferred i ∷ ops) =
    (i < n) × (phase i ≡ ended) × (has_session i ops ≡ false) × Served n phase ops
Served n phase (opened id balance ∷ ops) = Served n phase ops

Served-mono :
    (n : ℕ) (f g : ℕ → Phase) (ops : List Operation)
    → ((i : ℕ) → f i ≡ ended → g i ≡ ended)
    → Served n f ops
    → Served n g ops
Served-mono n f g [] h s = tt
Served-mono n f g (transferred i ∷ ops) h (lt, e, once, s) =
    (lt, h i e, once, Served-mono n f g ops h s)
Served-mono n f g (opened id balance ∷ ops) h s = Served-mono n f g ops h s

-- A session that has not ended is not in the history.
unserved :
    (n : ℕ) (f : ℕ → Phase) (ops : List Operation) (i : ℕ)
    → f i ≢ ended
    → Served n f ops
    → has_session i ops ≡ false
unserved n f [] i h s = refl
unserved n f (transferred j ∷ ops) i h (lt, e, once, s) = elim (Bool-cases (j == i)) [
  | inl same ↦ absurd (h (rw (← (==_iff j i).0 same) e))
  | inr other ↦ rw other (unserved n f ops i h s)
]
unserved n f (opened id balance ∷ ops) i h s = unserved n f ops i h s

still_ended :
    (f : ℕ → Phase) (k : ℕ) (p : Phase)
    → (f k ≢ ended) ⊎ (p ≡ ended)
    → (i : ℕ) → f i ≡ ended
    → update f k p i ≡ ended
still_ended f k p (inl h) i e = elim (Bool-cases (i == k)) [
  | inl same ↦ absurd (h (rw (← (==_iff i k).0 same) e))
  | inr other ↦ rw other e
]
still_ended f k p (inr h) i e = elim (Bool-cases (i == k)) [
  | inl same ↦ rw same h
  | inr other ↦ rw other e
]

now_ended : (f : ℕ → Phase) (k : ℕ) → update f k ended k ≡ ended
now_ended f k = rw ((==_iff k k).1 refl) refl

locking-ne-ended : (rows : List AccountRow) (ids : List ℤ) → locking rows ids ≢ ended
locking-ne-ended rows ids e = cc

idle-ne-ended : idle ≢ ended
idle-ne-ended e = cc

opened-transfers :
    (id balance : ℤ) (db : Database) → (Effect.opened id balance db).transfers ≡ db.transfers
opened-transfers id balance db = elim (Bool-cases (ltb_ℤ (pos 0) balance)) [
  | inl h ↦ rw h refl
  | inr h ↦ rw h refl
]

module _ ⦃dec : Decimal⦄ ⦃uuid : UuidCodec⦄ (cmd : ℕ → TransferCmd dec) (n : ℕ)
    (db : Database) where
  -- A history of the abstract state that explains the system: the balances, the transfers that the
  -- table has beyond those of the start, and the sessions that have moved.
  pub record Explains (ops : List Operation) (s : System) : Type 0 where
    pub balances : serial cmd ops (view db) ≡ some (view s.db)
    pub written : recorded s.db.transfers ≡ transfers_by cmd ops ++ recorded db.transfers
    pub served : Served n s.phase ops

  -- A step that moves nothing.
  quiet :
      (ops : List Operation) (s : System) (db' : Database) (k : ℕ) (p : Phase)
      → view db' ≡ view s.db
      → db'.transfers ≡ s.db.transfers
      → (s.phase k ≢ ended) ⊎ (p ≡ ended)
      → Explains ops s
      → Explains ops (record { db = db'; phase = update s.phase k p })
  quiet ops s db' k p same rows h x = record {
    balances = x.balances ∙ ap some (sym same);
    written = ap recorded rows ∙ x.written;
    served = Served-mono n s.phase (update s.phase k p) ops (still_ended s.phase k p h) x.served;
  }

  ran :
      (ops : List Operation) (s : System) (k : ℕ) (rows : List AccountRow) (db' : Database)
      → k < n
      → s.phase k ≡ locking rows []
      → ((after : Database) × SeqLe s.db after × (db' ≡ roll_back s.db after))
        ⊎ ((t : Transfer dec) × Landed (cmd k) rows s.db t db')
      → Explains ops s
      → (ops' : List Operation) × Explains ops'
          (record { db = db'; phase = update s.phase k ended })
  ran ops s k rows db' lt e (inl (after, le, same)) x =
      (ops, rw same (quiet ops s (roll_back s.db after) k ended refl refl (inr refl) x))
  ran ops s k rows db' lt e (inr (t, (m, held_s, held_d))) x = (
    transferred k ∷ ops,
    rw m.written (record {
      balances =
          ap (apply_to cmd (transferred k)) x.balances
          ∙ view-move_between m.key (cmd k).source_id (cmd k).destination_id
              (dec.to_numeric (cmd k).amount) s.db m.source_found m.destination_found m.differ
              m.positive m.covered;
      written = rw m.key_casts (
          ap
            (λ (rest : List Entry).
              (m.key, (cmd k).source_id, (cmd k).destination_id, dec.to_numeric (cmd k).amount)
              ∷ rest)
            x.written);
      served = (
        lt,
        now_ended s.phase k,
        unserved n s.phase ops k (λ h. locking-ne-ended rows [] (sym e ∙ h)) x.served,
        Served-mono n s.phase (update s.phase k ended) ops (still_ended s.phase k ended (inr refl))
            x.served,
      );
    }),
  )

  -- An opening with a deposit or without one, outside of every session.
  widened :
      (ops : List Operation) (s : System) (id balance : ℤ) (db' : Database)
      → Opened id balance s.db db'
      → Explains ops s
      → Explains (opened id balance ∷ ops) (record s { db = db' })
  widened ops s id balance db' o x = rw o.written (record {
    balances =
        ap (apply_to cmd (opened id balance)) x.balances
        ∙ view-open_at id balance s.db o.fresh o.nonneg;
    written = ap recorded (opened-transfers id balance s.db) ∙ x.written;
    served = x.served;
  })

  module _ (laws : DecimalLaws dec) (scaled : (i : ℕ) → IsScaled dec (cmd i).amount)
      (sound : IsSound db) where
    explained :
        (ops : List Operation) {s t : System}
        → Reach cmd n db s
        → Step cmd n s t
        → Explains ops s
        → (ops' : List Operation) × Explains ops' t
    explained ops {s} r (begin i lt e) x =
        (ops, quiet ops s s.db i _ refl refl (inl (λ h. idle-ne-ended (sym e ∙ h))) x)
    explained ops {s} r (move (lock i rows id ids row lt e free found)) x = (
      ops,
      quiet ops s s.db i _ refl refl (inl (λ h. locking-ne-ended rows (id ∷ ids) (sym e ∙ h))) x,
    )
    explained ops {s} r (move (run i rows events lt e)) x =
        let mine : HoldsIn s.db.accounts (locking rows []) =
          rw e at ((Reach-IsConsistent laws cmd n scaled sound r).holding i) in
        ran ops s i rows _ lt e
          (run_locked-Ended (cmd i) rows laws s.db events (scaled i) mine.unique mine.current) x
    explained ops {s} r (leave i lt) x = (ops, quiet ops s s.db i ended refl refl (inr refl) x)
    explained ops {s} r (open_account id balance db' o) x =
        (opened id balance ∷ ops, widened ops s id balance db' o x)

    -- Transfers are serializable. However the steps of any number of transfers interleave, from sound
    -- data, with faults at any call and accounts opened in between, and amounts of at most 18
    -- decimals: there is a history of operations that, carried out one after another on the abstract
    -- balances, succeeds and gives the balances of the tables. The transfers in the table are those of
    -- the start and those of the history, in its order; each is of a session that has ended, and no
    -- session has two.
    pub serializable : {s : System} → Reach cmd n db s → (ops : List Operation) × Explains ops s
    serializable start = ([], record { balances = refl; written = refl; served = tt })
    serializable (next r st) = let (ops, x) = serializable r in explained ops r st x
