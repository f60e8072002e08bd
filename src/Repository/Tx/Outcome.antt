-- ===== src/Repository/Tx/Outcome.antt =====
-- The outcomes of WithTx, for any function that runs in the transaction.
use transfer_demo.Prelude.{
  ℕ, zero, suc, ◌≡◌, refl, Bool, true, false, Option, none, some, ◌⊎◌, inl, inr,
}
use transfer_demo.Domain.{GoError, wrap, other}
use transfer_demo.Result.{Result, ok, err}
use transfer_demo.Database.{Database}
use transfer_demo.Action.{Event, Fault, World, Action, this_event, later_events, fault_error}
use transfer_demo.Action.Ensures.{Holds, Ensures}
use transfer_demo.Action.Orderly.{
  All, All-this, All-suffix, All-later, Suffix, whole, later, Suffix-trans, SeqLe, Later, Orderly,
}
use transfer_demo.Repository.Tx.{
  roll_back, is_retryable, commit_reply, finish, begin_reply, run_once, attempts, with_tx,
}

-- A server that reports a deadlock or a serialization failure at a commit has not carried the
-- commit out.
abbrev pub HonestFault : Bool → Option Fault → Type 0
HonestFault landed none = Unit
HonestFault landed (some f) = landed ≡ true → is_retryable (wrap "commit" (fault_error f)) ≡ false

-- What others commit keeps `N`, and the reply to a commit is honest.
abbrev pub Harmless : (Database → Type 0) → Event → Type 0
Harmless N e = ((db : Database) → N db → N (e.others db)) × HonestFault e.landed e.fault

module _ {A : Type 0} where
  commit_reply-events :
      (o : Option Fault) (landed : Bool) (a : A) (before : Database) (w : World)
      → (commit_reply o landed a before w).1.events ≡ w.events
  unfolding commit_reply
  commit_reply-events none landed a before w = refl
  commit_reply-events (some f) landed a before w = refl

  finish-Suffix :
      (r : Result A) (before : Database) (w : World) → Suffix w.events (finish r before w).1.events
  unfolding finish
  finish-Suffix (ok a) before w = rw commit_reply-events (later whole)
  finish-Suffix (err e) before w = whole

  module _ (fn : Action A) (orderly : Orderly fn) where
    begin_reply-Suffix :
        (o : Option Fault) (w : World) → Suffix w.events (begin_reply o fn w).1.events
    unfolding begin_reply
    begin_reply-Suffix (some f) w = whole
    begin_reply-Suffix none w =
        Suffix-trans (orderly.at w).consumed (finish-Suffix (fn w).0 w.db (fn w).1)

    run_once-Suffix : (w : World) → Suffix w.events (run_once fn w).1.events
    unfolding run_once
    run_once-Suffix w =
        let e : Event = this_event w.events in
        Suffix-trans (later whole) (
          begin_reply-Suffix e.fault
            (record { db = e.others w.db; events = later_events w.events }))

    again-Suffix :
        (left : ℕ) (r : Result A) (w : World)
        → ((e : GoError) → Suffix w.events (attempts left e fn w).1.events)
        → let (_, w') = elim r as (λ _. Result A × World) [
          | ok a ↦ (ok a, w)
          | err e ↦ elim (is_retryable e) [ true ↦ attempts left e fn w | false ↦ (err e, w) ]
        ] in
          Suffix w.events w'.events
    again-Suffix left (ok a) w again = whole
    again-Suffix left (err e) w again =
        elim (is_retryable e)
          as (λ b.
            Suffix w.events
              (elim b as (λ _. Result A × World) [
                | true ↦ attempts left e fn w
                | false ↦ (err e, w)
              ]).1.events) [ true ↦ again e | false ↦ whole ]

    attempts-Suffix :
        (left : ℕ) (last_err : GoError) (w : World)
        → Suffix w.events (attempts left last_err fn w).1.events
    unfolding attempts
    attempts-Suffix zero last_err w = whole
    attempts-Suffix (suc left) last_err w = Suffix-trans (run_once-Suffix w) (
        again-Suffix left (run_once fn w).0 (run_once fn w).1
          (λ e. attempts-Suffix left e (run_once fn w).1))

    pub with_tx-Suffix : (w : World) → Suffix w.events (with_tx fn w).1.events
    unfolding with_tx
    with_tx-Suffix w = attempts-Suffix 3 (other "%!w(<nil>)") w

module _ {A : Type 0} (N : Database → Type 0) (Y : A → Database → Type 0)
    (kept : (db db' : Database) → SeqLe db db' → N db → N (roll_back db db')) where
  -- After a call that returned `a` its effect stands. After an error it does not, unless the error
  -- is that of a commit which has landed, other than a deadlock or a serialization failure.
  abbrev pub Outcome : Result A → Database → Type 0
  Outcome (ok a) db = Y a db
  Outcome (err e) db =
      N db
      ⊎ ((a : A) × (f : Fault) × Y a db
          × (e ≡ wrap "commit" (fault_error f))
          × (is_retryable e ≡ false))

  commit_reply-Outcome :
      (o : Option Fault) (landed : Bool) (a : A) (before : Database) (w : World)
      → HonestFault landed o
      → N before
      → SeqLe before w.db
      → Y a w.db
      → Outcome (commit_reply o landed a before w).0 (commit_reply o landed a before w).1.db
  unfolding commit_reply
  commit_reply-Outcome none landed a before w h n le y = y
  commit_reply-Outcome (some f) true a before w h n le y = inr (a, f, y, refl, h refl)
  commit_reply-Outcome (some f) false a before w h n le y = inl (kept before w.db le n)

  finish-Outcome :
      (r : Result A) (before : Database) (w : World)
      → All (Harmless N) w.events
      → N before
      → SeqLe before w.db
      → Holds Y r w.db
      → Outcome (finish r before w).0 (finish r before w).1.db
  unfolding finish
  finish-Outcome (ok a) before w h n le y =
      commit_reply-Outcome (this_event w.events).fault (this_event w.events).landed a before
        (record w { events = later_events w.events })
        (All-this (Harmless N) w.events (λ db m. m, tt) h).1 n le y
  finish-Outcome (err e) before w h n le y = inl (kept before w.db le n)

  module _ (fn : Action A) (orderly : Orderly fn)
      (runs : (db : Database) → N db → Ensures fn db Y) where
    begin_reply-Outcome :
        (o : Option Fault) (w : World)
        → All (Harmless N) w.events
        → N w.db
        → Outcome (begin_reply o fn w).0 (begin_reply o fn w).1.db
    unfolding begin_reply
    begin_reply-Outcome (some f) w h n = inl n
    begin_reply-Outcome none w h n =
        let run : Later w (fn w).1 = orderly.at w in
        finish-Outcome (fn w).0 w.db (fn w).1 (All-suffix (Harmless N) run.consumed h) n run.grown
          ((runs w.db n).at w.events)

    run_once-Outcome :
        (w : World)
        → All (Harmless N) w.events
        → N w.db
        → Outcome (run_once fn w).0 (run_once fn w).1.db
    unfolding run_once
    run_once-Outcome w h n =
        let e : Event = this_event w.events in
        begin_reply-Outcome e.fault (record { db = e.others w.db; events = later_events w.events })
          (All-later (Harmless N) w.events h)
          ((All-this (Harmless N) w.events (λ db m. m, tt) h).0 w.db n)

    after_attempt :
        (left : ℕ) (r : Result A) (w : World)
        → Outcome r w.db
        → ((e : GoError) → N w.db → Outcome (attempts left e fn w).0 (attempts left e fn w).1.db)
        → let (r', w') = elim r as (λ _. Result A × World) [
          | ok a ↦ (ok a, w)
          | err e ↦ elim (is_retryable e) [ true ↦ attempts left e fn w | false ↦ (err e, w) ]
        ] in
          Outcome r' w'.db
    after_attempt left (ok a) w o again = o
    after_attempt left (err e) w (inl n) again = retry (is_retryable e)
      where
        retry :
            (b : Bool)
            → let (r', w') = elim b as (λ _. Result A × World) [
              | true ↦ attempts left e fn w
              | false ↦ (err e, w)
            ] in
              Outcome r' w'.db
        retry true = again e n
        retry false = inl n
    after_attempt left (err e) w (inr (a, f, y, lost, final)) again =
        rw final (inr (a, f, y, lost, final))

    attempts-Outcome :
        (left : ℕ) (last_err : GoError) (w : World)
        → All (Harmless N) w.events
        → N w.db
        → Outcome (attempts left last_err fn w).0 (attempts left last_err fn w).1.db
    unfolding attempts
    attempts-Outcome zero last_err w h n = inl n
    attempts-Outcome (suc left) last_err w h n =
        after_attempt left (run_once fn w).0 (run_once fn w).1 (run_once-Outcome w h n) (λ e n'.
          attempts-Outcome left e (run_once fn w).1
            (All-suffix (Harmless N) (run_once-Suffix fn orderly w) h) n')

    -- Where the function that runs in the transaction only uses up faults in their order and never
    -- sets a sequence back, and takes a database of which N holds to a result of which Y holds
    -- whenever it returns, where what others commit and a rollback keep N, and where a commit that
    -- reports a deadlock or a serialization failure has not landed: if WithTx returns a value then Y
    -- holds of it, and if it returns an error then N holds, or Y holds of some value and the error is
    -- the lost reply to the commit, which is not a deadlock or a serialization failure.
    pub with_tx-Outcome :
        (w : World)
        → All (Harmless N) w.events
        → N w.db
        → Outcome (with_tx fn w).0 (with_tx fn w).1.db
    unfolding with_tx
    with_tx-Outcome w h n = attempts-Outcome 3 (other "%!w(<nil>)") w h n
