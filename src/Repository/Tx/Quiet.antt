-- ===== src/Repository/Tx/Quiet.antt =====
-- WithTx when nobody interferes: one attempt, committed or rolled back.
use transfer_demo.Prelude.{ℕ, suc, ◌≡◌, refl, ap, ◌∙◌, true, false}
use transfer_demo.Domain.{GoError, other}
use transfer_demo.Result.{Result, ok, err}
use transfer_demo.Database.{Database}
use transfer_demo.Action.{World, Action}
use transfer_demo.Action.Quiet.{quietly}
use transfer_demo.Repository.Tx.{roll_back, is_retryable, finish, run_once, attempts, with_tx}

module _ {A : Type 0} (fn : Action A) where
  -- What the loop does with the result of an attempt.
  abbrev decide_retry : ℕ → Result A × World → Result A × World
  decide_retry left (ok a, w) = (ok a, w)
  decide_retry left (err e, w) = elim (is_retryable e) [
    | true ↦ attempts left e fn w
    | false ↦ (err e, w)
  ]

  attempts-suc :
      (left : ℕ) (last_err : GoError) (w : World)
      → attempts (suc left) last_err fn w ≡ decide_retry left (run_once fn w)
  unfolding attempts
  attempts-suc left last_err w = go (run_once fn w).0 (run_once fn w).1
    where
      go :
          (r : Result A) (w' : World)
          → elim r as (λ _. Result A × World) [
            | ok a ↦ (ok a, w')
            | err e ↦ elim (is_retryable e) [ true ↦ attempts left e fn w' | false ↦ (err e, w') ]
          ]
            ≡ decide_retry left (r, w')
      go (ok a) w' = refl
      go (err e) w' = refl

module _ {A : Type 0} (fn : Action A) {db db₁ : Database} where
  run_once-eq :
      (r : Result A)
      → fn (quietly db) ≡ (r, quietly db₁)
      → run_once fn (quietly db) ≡ finish r db (quietly db₁)
  unfolding run_once
  run_once-eq r e = ap (λ (p : Result A × World). finish p.0 db p.1) e

  with_tx-eq :
      (r : Result A)
      → fn (quietly db) ≡ (r, quietly db₁)
      → with_tx fn (quietly db) ≡ decide_retry fn 2 (finish r db (quietly db₁))
  unfolding with_tx
  with_tx-eq r e =
      attempts-suc fn 2 (other "%!w(<nil>)") (quietly db) ∙ ap (decide_retry fn 2) (run_once-eq r e)

  pub with_tx-eq-ok :
      {a : A}
      → fn (quietly db) ≡ (ok a, quietly db₁)
      → with_tx fn (quietly db) ≡ (ok a, quietly db₁)
  unfolding finish
  with_tx-eq-ok {a} e = with_tx-eq (ok a) e

  pub with_tx-eq-err :
      {e : GoError}
      → fn (quietly db) ≡ (err e, quietly db₁)
      → is_retryable e ≡ false
      → with_tx fn (quietly db) ≡ (err e, quietly (roll_back db db₁))
  unfolding finish
  with_tx-eq-err {e} h final = with_tx-eq (err e) h ∙ rw (decide_retry, final)
