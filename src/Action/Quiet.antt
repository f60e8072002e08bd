-- ===== src/Action/Quiet.antt =====
-- Actions when no event is left: nobody interferes and no call faults, so that every step computes.
use transfer_demo.Prelude.{◌≡◌, refl, ap, Option, none, some, [], ◌∙◌}
use transfer_demo.Domain.{GoError}
use transfer_demo.Result.{Result, ok, err}
use transfer_demo.Database.{Database}
use transfer_demo.Database.Statements.{Statement}
use transfer_demo.Action.{
  World, Action, Querier, pool, tx, check, or_fail, attempt, round_trip, on_error, map_error, ◌>>=◌,
}

abbrev pub quietly : Database → World
quietly db = record { db = db; events = [] }

-- A result and a database, as the outcome of an action.
abbrev pub carried_out {ℓ} : {A : Type ℓ} → Result A × Database → Result A × World
carried_out (r, db) = (r, quietly db)

module _ {A B : Type 0} where
  -- What a block does after its first part.
  abbrev continue : (A → Action B) → Result A → Action B
  continue f (ok a) w = f a w
  continue f (err e) w = (err e, w)

  continue_lem :
      (f : A → Action B) (r : Result A) (w : World)
      → elim r as (λ _. Result B × World) [ ok a ↦ f a w | err e ↦ (err e, w) ] ≡ continue f r w
  continue_lem f (ok a) w = refl
  continue_lem f (err e) w = refl

  pub bind-eq-ok :
      (m : Action A) (f : A → Action B) {db db₁ : Database} {a : A}
      → m (quietly db) ≡ (ok a, quietly db₁)
      → (m >>= f) (quietly db) ≡ f a (quietly db₁)
  unfolding ◌>>=◌
  bind-eq-ok m f {db} e =
      continue_lem f (m (quietly db)).0 (m (quietly db)).1
      ∙ ap (λ (p : Result A × World). continue f p.0 p.1) e

  pub bind-eq-err :
      (m : Action A) (f : A → Action B) {db db₁ : Database} {e : GoError}
      → m (quietly db) ≡ (err e, quietly db₁)
      → (m >>= f) (quietly db) ≡ (err e, quietly db₁)
  unfolding ◌>>=◌
  bind-eq-err m f {db} e =
      continue_lem f (m (quietly db)).0 (m (quietly db)).1
      ∙ ap (λ (p : Result A × World). continue f p.0 p.1) e

module _ {A : Type 0} where
  pub round_trip-quietly :
      (q : Querier) (statement : Statement A) {db db₁ : Database} {r : Result A}
      → statement db ≡ (r, db₁)
      → round_trip q statement (quietly db) ≡ (r, quietly db₁)
  unfolding round_trip attempt
  round_trip-quietly pool statement e = rw e
  round_trip-quietly tx statement e = rw e

  pub map_error-eq :
      (f : GoError → GoError) (m : Action A) {w w' : World} {r : Result A}
      → m w ≡ (r, w')
      → map_error f m w ≡ (on_error f r, w')
  unfolding map_error
  map_error-eq f m e = rw e

  pub or_fail-eq :
      {o : Option A} {a : A} (e : GoError) (w : World) → o ≡ some a → or_fail o e w ≡ (ok a, w)
  unfolding or_fail
  or_fail-eq e w h = rw h

  pub or_fail-eq-err :
      {o : Option A} (e : GoError) (w : World) → o ≡ none → or_fail o e w ≡ (err e, w)
  unfolding or_fail
  or_fail-eq-err e w h = rw h

pub check-eq : {o : Option GoError} (w : World) → o ≡ none → check o w ≡ (ok tt, w)
unfolding check
check-eq w h = rw h

pub check-eq-err :
    {o : Option GoError} {e : GoError} (w : World) → o ≡ some e → check o w ≡ (err e, w)
unfolding check
check-eq-err w h = rw h
