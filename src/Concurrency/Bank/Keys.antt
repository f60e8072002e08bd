-- ===== src/Concurrency/Bank/Keys.antt =====
-- The idempotency keys of a history.
use transfer_demo.Prelude.{
  ℕ, ◌≡◌, refl, ◌∙◌, ap, sym, ◌⊎◌, inl, inr, Bool, true, false, ◌||◌, some, List, [], ◌∷◌, ◌++◌,
  ◌==◌, ==_iff, Bool-cases, arith,
}
use transfer_demo.Decimal.{Decimal}
use transfer_demo.Uuid.{UuidCodec}
use transfer_demo.Database.{TransferRow, has_key, key_taken}
use transfer_demo.Audit.Soundness.{HasUniqueKeys}
use transfer_demo.Service.Transfers.{TransferCmd}
use transfer_demo.Concurrency.Bank.{
  Operation, transferred, opened, Entry, transfers_by, has_session, recorded, key_of,
}

-- Does an entry stand under the key?
abbrev pub stands : ℕ → List Entry → Bool
stands u [] = false
stands u ((key, s, d, amount) ∷ entries) = has_key u key || stands u entries

abbrev pub IsKeyedOnce : List Entry → Type 0
IsKeyedOnce [] = Unit
IsKeyedOnce ((key, s, d, amount) ∷ entries) =
    ((u : ℕ) → key ≡ some u → stands u entries ≡ false) × IsKeyedOnce entries

pub stands-recorded :
    (u : ℕ) (rows : List TransferRow) → stands u (recorded rows) ≡ key_taken (some u) rows
stands-recorded u [] = refl
stands-recorded u (r ∷ rows) = ground (arith, stands-recorded u rows)

pub recorded-IsKeyedOnce :
    (rows : List TransferRow) → HasUniqueKeys rows → IsKeyedOnce (recorded rows)
recorded-IsKeyedOnce [] h = tt
recorded-IsKeyedOnce (r ∷ rows) (free, h) =
    (λ u e. stands-recorded u rows ∙ rw e at free, recorded-IsKeyedOnce rows h)

either : (a : Bool) {b : Bool} → b ≡ true → (a || b) ≡ true
either true e = refl
either false e = e

module _ ⦃dec : Decimal⦄ ⦃uuid : UuidCodec⦄ (cmd : ℕ → TransferCmd dec) (start : List Entry) where
  -- A session that has moved under a key has left an entry under it.
  moved-stands :
      (i u : ℕ) (ops : List Operation)
      → key_of cmd i ≡ some u
      → has_session i ops ≡ true
      → stands u (transfers_by cmd ops ++ start) ≡ true
  moved-stands i u [] e h = cc
  moved-stands i u (transferred k ∷ ops) e h = elim (Bool-cases (k == i)) [
    | inl same ↦
        let at_k : key_of cmd k ≡ some u = ap (key_of cmd) ((==_iff k i).0 same) ∙ e in
        rw (at_k, (==_iff u u).1 refl) refl
    | inr differs ↦ either (has_key u (key_of cmd k)) (moved-stands i u ops e (rw differs at h))
  ]
  moved-stands i u (opened id balance ∷ ops) e h = moved-stands i u ops e h

  kept-stands :
      (u : ℕ) (ops : List Operation)
      → stands u start ≡ true
      → stands u (transfers_by cmd ops ++ start) ≡ true
  kept-stands u [] h = h
  kept-stands u (transferred k ∷ ops) h = either (has_key u (key_of cmd k)) (kept-stands u ops h)
  kept-stands u (opened id balance ∷ ops) h = kept-stands u ops h

  -- The session that has moved last is alone under its key.
  newest_alone :
      (k j u : ℕ) (ops : List Operation)
      → IsKeyedOnce (transfers_by cmd (transferred k ∷ ops) ++ start)
      → key_of cmd k ≡ some u
      → key_of cmd j ≡ some u
      → has_session j ops ≡ true
      → ⊥
  newest_alone k j u ops (apart, keyed) e f h =
      let there = moved-stands j u ops f h in let absent = apart u e in cc

  pub once :
      (i j u : ℕ) (ops : List Operation)
      → IsKeyedOnce (transfers_by cmd ops ++ start)
      → key_of cmd i ≡ some u
      → key_of cmd j ≡ some u
      → has_session i ops ≡ true
      → has_session j ops ≡ true
      → i ≡ j
  once i j u [] keyed e f h g = cc
  once i j u (opened id balance ∷ ops) keyed e f h g = once i j u ops keyed e f h g
  once i j u (transferred k ∷ ops) keyed e f h g =
      by (Bool-cases (k == i)) (Bool-cases (k == j)) (once i j u ops keyed.1 e f)
    where
      by :
          ((k == i) ≡ true) ⊎ ((k == i) ≡ false)
          → ((k == j) ≡ true) ⊎ ((k == j) ≡ false)
          → (has_session i ops ≡ true → has_session j ops ≡ true → i ≡ j)
          → i ≡ j
      by (inl a) (inl b) ih = sym ((==_iff k i).0 a) ∙ (==_iff k j).0 b
      by (inl a) (inr b) ih =
          absurd
            (newest_alone k j u ops keyed (ap (key_of cmd) ((==_iff k i).0 a) ∙ e) f (rw b at g))
      by (inr a) (inl b) ih =
          absurd
            (newest_alone k i u ops keyed (ap (key_of cmd) ((==_iff k j).0 b) ∙ f) e (rw a at h))
      by (inr a) (inr b) ih = ih (rw a at h) (rw b at g)

  pub never :
      (i u : ℕ) (ops : List Operation)
      → IsKeyedOnce (transfers_by cmd ops ++ start)
      → key_of cmd i ≡ some u
      → stands u start ≡ true
      → has_session i ops ≡ false
  never i u [] keyed e h = refl
  never i u (opened id balance ∷ ops) keyed e h = never i u ops keyed e h
  never i u (transferred k ∷ ops) (apart, keyed) e h = elim (Bool-cases (k == i)) [
    | inl same ↦
        let there = kept-stands u ops h in
        let absent = apart u (ap (key_of cmd) ((==_iff k i).0 same) ∙ e) in cc
    | inr differs ↦ rw differs (never i u ops keyed e h)
  ]
