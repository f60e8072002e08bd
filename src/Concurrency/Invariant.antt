-- ===== src/Concurrency/Invariant.antt =====
-- What every reachable state keeps: sound data, current rows, and one holder of each lock.
use mathlib.Core.Bool.{false≢true}
use transfer_demo.Prelude.{
  ℕ, ◌≡◌, refl, ap, sym, ◌∙◌, ◌⊎◌, inl, inr, Bool-cases, true, false, Option, none, some, List, [],
  ◌∷◌, ℤ, ◌==◌, ==_iff, eq_ℤ, eq_ℤ_iff, arith,
}
use transfer_demo.Database.{AccountRow, find_account, has_account, is_some}
use transfer_demo.Database.Accounts.{find_account-set_balance, find_account-id}
use transfer_demo.Database.Statements.{set_balance}
use transfer_demo.Audit.Sums.{has_account-set_balance}
use transfer_demo.Audit.Soundness.{IsSound}
use transfer_demo.Concurrency.{Phase, locking, rows_of, waiting_of, holds, System, update}
use transfer_demo.Concurrency.Rows.{
  Spares, Spares-refl, IsHolding, IsHolding_mono, IsHolding-lock, Current,
}

abbrev pub Exclusive : (ℕ → Phase) → Type 0
Exclusive phase = (i j : ℕ) (id : ℤ) → holds (phase i) id ≡ true → holds (phase j) id ≡ true → i ≡ j

pub record IsConsistent (s : System) : Type 0 where
  pub sound : IsSound s.db
  pub holding : (i : ℕ) → IsHolding s.db.accounts (rows_of (s.phase i)) (waiting_of (s.phase i))
  pub exclusive : Exclusive s.phase

abbrev pub HoldsIn : List AccountRow → Phase → Type 0
HoldsIn table p = IsHolding table (rows_of p) (waiting_of p)

-- A session changes its phase, and the table changes outside of the rows of the others.
pub IsHolding-update :
    (phase : ℕ → Phase) (k : ℕ) (p : Phase) (table table' : List AccountRow)
    → HoldsIn table' p
    → ((i : ℕ) → (i == k) ≡ false → Spares (rows_of (phase i)) table table')
    → ((i : ℕ) → HoldsIn table (phase i))
    → (i : ℕ) → HoldsIn table' (update phase k p i)
IsHolding-update phase k p table table' new spares h i = elim (Bool-cases (i == k)) [
  | inl e ↦ rw e new
  | inr e ↦
      rw e
        (IsHolding_mono (rows_of (phase i)) (waiting_of (phase i)) table table' (spares i e) (h i))
]

-- A session that holds nothing new.
pub Exclusive-update :
    (phase : ℕ → Phase) (k : ℕ) (p : Phase)
    → ((id : ℤ) → holds p id ≡ true → (j : ℕ) → holds (phase j) id ≡ true → j ≡ k)
    → Exclusive phase
    → Exclusive (update phase k p)
Exclusive-update phase k p only x i j id hi hj = elim (Bool-cases (i == k)) [
  | inl e ↦ elim (Bool-cases (j == k)) [
    | inl f ↦ (==_iff i k).0 e ∙ sym ((==_iff j k).0 f)
    | inr f ↦ (==_iff i k).0 e ∙ sym (only id (rw e at hi) j (rw f at hj))
  ]
  | inr e ↦ elim (Bool-cases (j == k)) [
    | inl f ↦ only id (rw f at hj) i (rw e at hi) ∙ sym ((==_iff j k).0 f)
    | inr f ↦ x i j id (rw e at hi) (rw f at hj)
  ]
]

pub nothing_held : {table : List AccountRow} → IsHolding table [] []
nothing_held = record { current = tt; unique = tt; queued = tt; ascending = tt; exist = tt }

none_of :
    (id : ℤ) (rows : List AccountRow) → has_account id rows ≡ false → find_account id rows ≡ none
none_of id rows h = is_some-false (find_account id rows) h
  where
    is_some-false : (o : Option AccountRow) → is_some o ≡ false → o ≡ none
    is_some-false none e = refl
    is_some-false (some r) e = cc

pub held_by_none :
    (s : System) (k : ℕ) (id : ℤ) (rows : List AccountRow)
    → rows ≡ []
    → has_account id rows ≡ true
    → (j : ℕ) → holds (s.phase j) id ≡ true
    → j ≡ k
held_by_none s k id [] e f = cc
held_by_none s k id (r ∷ rows) e f = cc

-- A session ends without effect, or begins.
pub quiet_update :
    (s : System) (k : ℕ) (p : Phase)
    → rows_of p ≡ []
    → HoldsIn s.db.accounts p
    → IsConsistent s
    → IsConsistent (record s { phase = update s.phase k p })
quiet_update s k p empty new h = record {
  sound = h.sound;
  holding =
      IsHolding-update s.phase k p s.db.accounts s.db.accounts new
        (λ i e. Spares-refl (rows_of (s.phase i)) s.db.accounts) h.holding;
  exclusive =
      Exclusive-update s.phase k p (λ id e. held_by_none s k id (rows_of p) empty e) h.exclusive;
}

split_held :
    (r : AccountRow) (rows : List AccountRow) (j : ℤ)
    → has_account j (r ∷ rows) ≡ true
    → (r.id ≡ j) ⊎ (has_account j rows ≡ true)
split_held r rows j h = elim (Bool-cases (eq_ℤ r.id j)) [
  | inl e ↦ inl ((eq_ℤ_iff r.id j).0 e)
  | inr e ↦ inr (rw e at h)
]

pub lock-IsConsistent :
    (s : System) (k : ℕ) (rows : List AccountRow) (id : ℤ) (ids : List ℤ) (r : AccountRow)
    → s.phase k ≡ locking rows (id ∷ ids)
    → ((j : ℕ) → holds (s.phase j) id ≡ false)
    → find_account id s.db.accounts ≡ some r
    → IsConsistent s
    → IsConsistent (record s { phase = update s.phase k (locking (r ∷ rows) ids) })
lock-IsConsistent s k rows id ids r e free found h =
    let same : r.id ≡ id = find_account-id id s.db.accounts found in
    let mine : HoldsIn s.db.accounts (locking rows (id ∷ ids)) = rw e at (h.holding k) in
    record {
      sound = h.sound;
      holding =
          IsHolding-update s.phase k (locking (r ∷ rows) ids) s.db.accounts s.db.accounts
            (IsHolding-lock s.db.accounts rows r ids (rw same (none_of id rows (rw e at (free k))))
              (ap (λ (i : ℤ). find_account i s.db.accounts) same ∙ found) (rw same mine))
            (λ i e. Spares-refl (rows_of (s.phase i)) s.db.accounts) h.holding;
      exclusive =
          Exclusive-update s.phase k (locking (r ∷ rows) ids)
            (λ j f i g. elim (split_held r rows j f) [
              | inl e' ↦ absurd (false≢true (sym (rw (sym same ∙ e') at (free i)) ∙ g))
              | inr f' ↦ h.exclusive i k j g (rw e f')
            ])
            h.exclusive;
    }

-- The two accounts of a transfer, as seen by a session that holds neither.
pub moved_Spares :
    (rows table : List AccountRow) (s d b b' : ℤ) (now : ℕ)
    → ((j : ℤ) → has_account j rows ≡ true → (eq_ℤ s j ≡ false) × (eq_ℤ d j ≡ false))
    → Spares rows table (set_balance d b' now (set_balance s b now table))
moved_Spares rows table s d b b' now apart = record {
  same = λ j h.
      let (es, ed) = apart j h in
      find_account-set_balance d j b' now (set_balance s b now table)
      ∙ rw (ed, find_account-set_balance s j b now table, es) refl;
  kept = λ j h.
      has_account-set_balance d j b' now (set_balance s b now table)
      ∙ has_account-set_balance s j b now table
      ∙ h;
}

pub fresh_Spares :
    (rows table : List AccountRow) (r : AccountRow)
    → find_account r.id table ≡ none
    → Current table rows
    → Spares rows table (r ∷ table)
fresh_Spares rows table r new c = record {
  same = λ j h. ground (arith, eq_ℤ_iff r.id j, present j rows c h);
  kept = λ j h. ground arith;
}
  where
    present :
        (j : ℤ) (rows : List AccountRow)
        → Current table rows
        → has_account j rows ≡ true
        → has_account j table ≡ true
    present j [] c h = cc
    present j (s ∷ rows) c h = ground (arith, eq_ℤ_iff s.id j, present j rows)
