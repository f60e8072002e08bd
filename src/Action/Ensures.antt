-- ===== src/Action/Ensures.antt =====
-- What an action inside a transaction has done when it returns no error: postconditions, with one
-- rule for each way to build an action.
use transfer_demo.Prelude.{Bool, true, false, if◌then◌else◌, Option, none, some, ◌≡◌, refl, List}
use transfer_demo.Domain.{GoError}
use transfer_demo.Result.{Result, ok, err}
use transfer_demo.Database.{Database}
use transfer_demo.Database.Statements.{Statement}
use transfer_demo.Action.{
  Fault, Event, World, Action, this_event, later_events, tx, pure, check, or_fail, attempt,
  round_trip, on_error, map_error, ◌>>=◌,
}

abbrev pub Holds : {A : Type 0} → (A → Database → Type 0) → Result A → Database → Type 0
Holds Q (ok a) db = Q a db
Holds Q (err e) db = Unit

-- Whatever the events, if `m` begins at `db` and returns `a`, then `Q` holds of `a` and of the
-- database that `m` leaves.
pub record Ensures {A : Type 0} (m : Action A) (db : Database) (Q : A → Database → Type 0)
    : Type 0 where
  pub at :
      (events : List Event)
      → Holds Q
          (m (record { db = db; events = events })).0
          (m (record { db = db; events = events })).1.db

module _ {A : Type 0} (Q : A → Database → Type 0) where
  pub Holds-of_ok :
      (p : Result A × Database)
      → ((a : A) (db' : Database) → p ≡ (ok a, db') → Q a db')
      → Holds Q p.0 p.1
  Holds-of_ok (ok a, db') h = h a db' refl
  Holds-of_ok (err e, db') h = tt

  on_error-Holds :
      (f : GoError → GoError) (r : Result A) (db : Database)
      → Holds Q r db
      → Holds Q (on_error f r) db
  on_error-Holds f (ok a) db h = h
  on_error-Holds f (err e) db h = tt

  attempt-Holds :
      (o : Option Fault) (statement : Statement A) (events : List Event) (db : Database)
      → Holds Q (statement db).0 (statement db).1
      → Holds Q (attempt o statement events db).0 (attempt o statement events db).1.db
  unfolding attempt
  attempt-Holds none statement events db h = h
  attempt-Holds (some f) statement events db h = tt

module _ {A B : Type 0} {P : A → Database → Type 0} {Q : B → Database → Type 0} where
  continue-Holds :
      (r : Result A) (w₁ : World) (f : A → Action B)
      → Holds P r w₁.db
      → ((a : A) (db₁ : Database) → P a db₁ → Ensures (f a) db₁ Q)
      → let (r', w') = elim r as (λ _. Result B × World) [ ok a ↦ f a w₁ | err e ↦ (err e, w₁) ] in
        Holds Q r' w'.db
  continue-Holds (ok a) w₁ f p q = (q a w₁.db p).at w₁.events
  continue-Holds (err e) w₁ f p q = tt

  pub Ensures-bind :
      {db : Database} (m : Action A) (f : A → Action B)
      → Ensures m db P
      → ((a : A) (db₁ : Database) → P a db₁ → Ensures (f a) db₁ Q)
      → Ensures (m >>= f) db Q
  unfolding ◌>>=◌
  Ensures-bind {db} m f p q = record {
    at = λ events.
        let w : World = record { db = db; events = events } in
        continue-Holds (m w).0 (m w).1 f (p.at events) q;
  }

-- The same where the first part leaves a database that is known.
pub Ensures-then :
    {A B : Type 0} {P : A → Type 0} {Q : B → Database → Type 0} {db db₁ : Database} (m : Action A)
    (f : A → Action B)
    → Ensures m db (λ a db'. P a × (db' ≡ db₁))
    → ((a : A) → P a → Ensures (f a) db₁ Q)
    → Ensures (m >>= f) db Q
Ensures-then m f p q = Ensures-bind m f p (λ a db' h. rw h.1 (q a h.0))

module _ {A : Type 0} {Q : A → Database → Type 0} where
  pub Ensures-pure : {db : Database} (a : A) → Q a db → Ensures (pure a) db Q
  Ensures-pure a q = record { at = λ events. q }

  pub Ensures-or_fail :
      {db : Database} (o : Option A) (e : GoError)
      → ((a : A) → o ≡ some a → Q a db)
      → Ensures (or_fail o e) db Q
  unfolding or_fail
  Ensures-or_fail none e q = record { at = λ events. tt }
  Ensures-or_fail (some a) e q = record { at = λ events. q a refl }

  pub Ensures-map_error :
      {db : Database} (f : GoError → GoError) (m : Action A)
      → Ensures m db Q
      → Ensures (map_error f m) db Q
  unfolding map_error
  Ensures-map_error {db} f m h = record {
    at = λ events.
        let w : World = record { db = db; events = events } in
        on_error-Holds Q f (m w).0 (m w).1.db (h.at events);
  }

  -- A statement of a transaction that returned ran on the transaction's database.
  pub Ensures-round_trip :
      {db : Database} (statement : Statement A)
      → ((a : A) (db' : Database) → statement db ≡ (ok a, db') → Q a db')
      → Ensures (round_trip tx statement) db Q
  unfolding round_trip
  Ensures-round_trip {db} statement h = record {
    at = λ events.
        attempt-Holds Q (this_event events).fault statement (later_events events) db
          (Holds-of_ok Q (statement db) h);
  }

pub Ensures-check :
    {Q : Unit {0} → Database → Type 0} {db : Database} (o : Option GoError)
    → (o ≡ none → Q tt db)
    → Ensures (check o) db Q
unfolding check
Ensures-check none q = record { at = λ events. q refl }
Ensures-check (some e) q = record { at = λ events. tt }

pub Holds-imp :
    {A : Type 0} (P Q : A → Database → Type 0) (r : Result A) (db : Database)
    → ((a : A) → P a db → Q a db)
    → Holds P r db
    → Holds Q r db
Holds-imp P Q (ok a) db f h = f a h
Holds-imp P Q (err e) db f h = tt

pub Ensures-imp :
    {A : Type 0} {P Q : A → Database → Type 0} {db : Database} (m : Action A)
    → ((a : A) (db' : Database) → P a db' → Q a db')
    → Ensures m db P
    → Ensures m db Q
Ensures-imp {P} {Q} {db} m f h = record {
  at = λ events.
      let (r, w') = m (record { db = db; events = events }) in
      Holds-imp P Q r w'.db (λ a. f a w'.db) (h.at events);
}

pub Ensures-if :
    {A : Type 0} {Q : A → Database → Type 0} {db : Database} (b : Bool) (m n : Action A)
    → Ensures m db Q
    → Ensures n db Q
    → Ensures (if b then m else n) db Q
Ensures-if true m n p q = p
Ensures-if false m n p q = q
