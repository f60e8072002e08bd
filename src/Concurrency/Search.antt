-- ===== src/Concurrency/Search.antt =====
-- Searches among the first sessions: one that holds a lock, and the one that waits for the greatest.
use transfer_demo.Prelude.{
  ℕ, zero, suc, ◌<◌, ◌≡◌, sym, ◌∙◌, ◌⊎◌, inl, inr, Bool, Bool-cases, Option-cases, true, false,
  Option, none, some, List, [], ◌∷◌, ℤ, ◌==◌, ==_iff, arith, ◌≤ℤ◌, leb_ℤ, eq_ℤ_iff,
}
use transfer_demo.Database.{AccountRow, has_account, is_some}
use transfer_demo.Concurrency.{Phase, waiting_of}
use transfer_demo.Concurrency.Locks.{◌<ℤ◌}
use transfer_demo.Concurrency.Rows.{AllBelow}

-- The account that a session waits for.
abbrev pub first_of : List ℤ → Option ℤ
first_of [] = none
first_of (id ∷ ids) = some id

abbrev pub waits : Phase → Option ℤ
waits p = first_of (waiting_of p)

-- A session that waits for the greatest account of all that are waited for, below `n`.
abbrev pub Highest : ℕ → (ℕ → Phase) → ℕ → ℤ → Type 0
Highest n phase i id =
    (i < n)
    × (waits (phase i) ≡ some id)
    × ((j : ℕ) → j < n → (k : ℤ) → waits (phase j) ≡ some k → k ≤ℤ id)

abbrev pub NoneWaits : ℕ → (ℕ → Phase) → Type 0
NoneWaits n phase = (j : ℕ) → j < n → waits (phase j) ≡ none

pub below_or_last : (j n : ℕ) → j < suc n → (j < n) ⊎ (j ≡ n)
below_or_last j n h = elim (Bool-cases (j == n)) [
  | inl e ↦ inr ((==_iff j n).0 e)
  | inr e ↦ inl (ground arith)
]

-- One session more, that waits for nothing or for an account not above, changes the highest not.
Highest-suc :
    (n : ℕ) (phase : ℕ → Phase) (i : ℕ) (id : ℤ)
    → Highest n phase i id
    → ((k : ℤ) → waits (phase n) ≡ some k → k ≤ℤ id)
    → Highest (suc n) phase i id
Highest-suc n phase i id (lt, w, max) low = (
  omega arith,
  w,
  λ j h k f. elim (below_or_last j n h) [
    | inl lt' ↦ max j lt' k f
    | inr last ↦ low k (rw last at f)
  ],
)

-- The new session, where nobody before waits for an account above.
Highest-last :
    (n : ℕ) (phase : ℕ → Phase) (id : ℤ)
    → waits (phase n) ≡ some id
    → ((j : ℕ) → j < n → (k : ℤ) → waits (phase j) ≡ some k → k ≤ℤ id)
    → Highest (suc n) phase n id
Highest-last n phase id w low = (
  omega arith,
  w,
  λ j h k f. elim (below_or_last j n h) [
    | inl lt ↦ low j lt k f
    | inr last ↦ same_bound k (sym (rw last at f) ∙ w)
  ],
)
  where
    same_bound : (k : ℤ) → some k ≡ some id → k ≤ℤ id
    same_bound k e = let same : k ≡ id = cc in rw same (omega arith)

le_trans_ℤ : (a b c : ℤ) → a ≤ℤ b → b ≤ℤ c → a ≤ℤ c
le_trans_ℤ a b c h k = omega arith

pub no_wait : {A : Type 0} {o : Option ℤ} {k : ℤ} → o ≡ none → o ≡ some k → A
no_wait e f = cc

pub highest :
    (n : ℕ) (phase : ℕ → Phase) → NoneWaits n phase ⊎ ((i : ℕ) × (id : ℤ) × Highest n phase i id)
highest zero phase = inl (λ j h. elim h [ ])
highest (suc n) phase = elim (Option-cases (waits (phase n))) [
  | inl e ↦ elim (highest n phase) [
    | inl quiet ↦
        inl (λ j h. elim (below_or_last j n h) [ inl lt ↦ quiet j lt | inr last ↦ rw last e ])
    | inr (i, id, top) ↦ inr (i, id, Highest-suc n phase i id top (λ k f. no_wait e f))
  ]
  | inr (id₀, e) ↦ elim (highest n phase) [
    | inl quiet ↦ inr (n, id₀, Highest-last n phase id₀ e (λ j lt k f. no_wait (quiet j lt) f))
    | inr (i, id, top) ↦ elim (Bool-cases (leb_ℤ id id₀)) [
      | inl le ↦ inr (
        n,
        id₀,
        Highest-last n phase id₀ e
            (λ j lt k f. le_trans_ℤ k id id₀ (top.2 j lt k f) (ground arith)),
      )
      | inr gt ↦ inr (
        i,
        id,
        Highest-suc n phase i id top (λ k f. let same : k ≡ id₀ = cc in rw same (ground arith)),
      )
    ]
  ]
]

-- A search among the first `n`.
pub find_below :
    (n : ℕ) (p : ℕ → Bool) → ((j : ℕ) → j < n → p j ≡ false) ⊎ ((j : ℕ) × (j < n) × (p j ≡ true))
find_below zero p = inl (λ j h. elim h [ ])
find_below (suc n) p = elim (Bool-cases (p n)) [
  | inl e ↦ inr (n, omega arith, e)
  | inr e ↦ elim (find_below n p) [
    | inl none_yet ↦
        inl (λ j h. elim (below_or_last j n h) [ inl lt ↦ none_yet j lt | inr last ↦ rw last e ])
    | inr (j, lt, f) ↦ inr (j, omega arith, f)
  ]
]

pub not_both : (a b : ℤ) → a <ℤ b → ¬ (b ≤ℤ a)
not_both a b h = omega arith

pub missing : {o : Option AccountRow} → o ≡ none → ¬ (is_some o ≡ true)
missing e f = cc

-- A session that holds an account waits for none below it.
pub above_held :
    (rows : List AccountRow) (id k : ℤ) → AllBelow rows k → has_account id rows ≡ true → id <ℤ k
above_held [] id k b h = cc
above_held (r ∷ rows) id k b h = ground (arith, eq_ℤ_iff r.id id, above_held rows id k)
