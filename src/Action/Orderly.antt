-- ===== src/Action/Orderly.antt =====
-- Actions inside a transaction only use up events, and never move a sequence back, whether they
-- return or fail: one rule for each way to build an action.
use transfer_demo.Prelude.{
  ℕ, ◌≤◌, ◌≡◌, refl, Option, none, some, List, [], ◌∷◌, arith, Bool, true, false, if◌then◌else◌, ℤ,
  String,
}
use transfer_demo.Domain.{GoError}
use transfer_demo.Result.{Result, ok, err}
use transfer_demo.Database.{Database}
use transfer_demo.Database.Statements.{
  Statement, insert_account, insert_deposit, select_accounts_for_update, update_balance,
  select_transfer, insert_transfer, insert_ledger_entry,
}
use transfer_demo.Action.{
  Fault, Event, World, Action, quiet, this_event, later_events, tx, pure, fail, check, or_fail,
  attempt, round_trip, map_error, ◌>>=◌,
}

-- `events` after some of its events have happened.
pub data Suffix (events : List Event) : List Event → Type 0 where
  whole : Suffix events events
  later : {rest : List Event} → Suffix events rest → Suffix events (later_events rest)

pub Suffix-trans : {a b c : List Event} → Suffix a b → Suffix b c → Suffix a c
Suffix-trans s whole = s
Suffix-trans s (later t) = later (Suffix-trans s t)

-- Every event that is to come has the property.
abbrev pub All : (Event → Type 0) → List Event → Type 0
All P [] = Unit
All P (e ∷ events) = P e × All P events

pub All-later :
    (P : Event → Type 0) (events : List Event) → All P events → All P (later_events events)
All-later P [] h = tt
All-later P (e ∷ events) h = h.1

pub All-this :
    (P : Event → Type 0) (events : List Event) → P quiet → All P events → P (this_event events)
All-this P [] q h = q
All-this P (e ∷ events) q h = h.0

pub All-suffix : (P : Event → Type 0) {a b : List Event} → Suffix a b → All P a → All P b
All-suffix P whole h = h
All-suffix P (later {rest} s) h = All-later P rest (All-suffix P s h)

pub record SeqLe (db db' : Database) : Type 0 where
  pub deposits : db.deposits_seq ≤ db'.deposits_seq
  pub transfers : db.transfers_seq ≤ db'.transfers_seq
  pub ledger_entries : db.ledger_entries_seq ≤ db'.ledger_entries_seq

pub SeqLe-refl : (db : Database) → SeqLe db db
SeqLe-refl db = omega arith

pub SeqLe-trans : {a b c : Database} → SeqLe a b → SeqLe b c → SeqLe a c
SeqLe-trans p q = omega arith

pub record Later (w w' : World) : Type 0 where
  pub consumed : Suffix w.events w'.events
  pub grown : SeqLe w.db w'.db

pub record Orderly {A : Type 0} (m : Action A) : Type 0 where
  pub at : (w : World) → Later w (m w).1

pub record Growing {A : Type 0} (statement : Statement A) : Type 0 where
  pub at : (db : Database) → SeqLe db (statement db).1

module _ {A : Type 0} where
  pub Orderly-pure : (a : A) → Orderly (pure a)
  Orderly-pure a = record { at = λ w. record { consumed = whole; grown = SeqLe-refl w.db } }

  Orderly-fail : (e : GoError) → Orderly (fail {A = A} e)
  Orderly-fail e = record { at = λ w. record { consumed = whole; grown = SeqLe-refl w.db } }

  pub Orderly-or_fail : (o : Option A) (e : GoError) → Orderly (or_fail o e)
  unfolding or_fail
  Orderly-or_fail none e = Orderly-fail e
  Orderly-or_fail (some a) e = Orderly-pure a

  pub Orderly-map_error :
      (f : GoError → GoError) (m : Action A) → Orderly m → Orderly (map_error f m)
  unfolding map_error
  Orderly-map_error f m h = record { at = h.at }

  pub Orderly-if :
      (b : Bool) (m n : Action A) → Orderly m → Orderly n → Orderly (if b then m else n)
  Orderly-if true m n p q = p
  Orderly-if false m n p q = q

  attempt-SeqLe :
      (o : Option Fault) (statement : Statement A) (events : List Event) (db : Database)
      → Growing statement
      → SeqLe db (attempt o statement events db).1.db
  unfolding attempt
  attempt-SeqLe none statement events db g = g.at db
  attempt-SeqLe (some f) statement events db g = SeqLe-refl db

  attempt-events :
      (o : Option Fault) (statement : Statement A) (events : List Event) (db : Database)
      → (attempt o statement events db).1.events ≡ events
  unfolding attempt
  attempt-events none statement events db = refl
  attempt-events (some f) statement events db = refl

  pub Orderly-round_trip :
      (statement : Statement A) → Growing statement → Orderly (round_trip tx statement)
  unfolding round_trip
  Orderly-round_trip statement g = record {
    at = λ w. record {
      consumed = rw attempt-events (later whole);
      grown = attempt-SeqLe (this_event w.events).fault statement (later_events w.events) w.db g;
    };
  }

pub Orderly-check : (o : Option GoError) → Orderly (check o)
unfolding check
Orderly-check none = Orderly-pure tt
Orderly-check (some e) = Orderly-fail e

module _ {A B : Type 0} where
  continue-Later :
      (r : Result A) (w w₁ : World) (f : A → Action B)
      → Later w w₁
      → ((a : A) → Orderly (f a))
      → Later w (elim r as (λ _. Result B × World) [ ok a ↦ f a w₁ | err e ↦ (err e, w₁) ]).1
  continue-Later (ok a) w w₁ f p q =
      let n : Later w₁ (f a w₁).1 = (q a).at w₁ in
      record { consumed = Suffix-trans p.consumed n.consumed; grown = SeqLe-trans p.grown n.grown }
  continue-Later (err e) w w₁ f p q = p

  pub Orderly-bind :
      (m : Action A) (f : A → Action B) → Orderly m → ((a : A) → Orderly (f a)) → Orderly (m >>= f)
  unfolding ◌>>=◌
  Orderly-bind m f p q = record { at = λ w. continue-Later (m w).0 w (m w).1 f (p.at w) q }

pub Growing-read : {A : Type 0} (r : Database → Result A) → Growing (λ db. (r db, db))
Growing-read r = record { at = λ db. SeqLe-refl db }

pub Growing-insert_account : (id balance : ℤ) → Growing (insert_account id balance)
unfolding insert_account
Growing-insert_account id balance = record { at = λ db. ground arith }

pub Growing-insert_deposit : (id amount : ℤ) → Growing (insert_deposit id amount)
unfolding insert_deposit
Growing-insert_deposit id amount = record { at = λ db. ground arith }

pub Growing-update_balance : (id balance : ℤ) → Growing (update_balance id balance)
unfolding update_balance
Growing-update_balance id balance = record { at = λ db. ground arith }

pub Growing-insert_transfer :
    (key : Option ℕ) (s d amount : ℤ) (status : String)
    → Growing (insert_transfer key s d amount status)
unfolding insert_transfer
Growing-insert_transfer key s d amount status = record { at = λ db. ground arith }

pub Growing-insert_ledger_entry :
    (n : ℕ) (id : ℤ) (direction : String) (amount after : ℤ)
    → Growing (insert_ledger_entry n id direction amount after)
unfolding insert_ledger_entry
Growing-insert_ledger_entry n id direction amount after = record { at = λ db. ground arith }

pub Growing-select_accounts_for_update : (ids : List ℤ) → Growing (select_accounts_for_update ids)
unfolding select_accounts_for_update
Growing-select_accounts_for_update ids = record { at = λ db. SeqLe-refl db }

pub Growing-select_transfer : (key : ℕ) → Growing (select_transfer key)
unfolding select_transfer
Growing-select_transfer key = record { at = λ db. SeqLe-refl db }

pub ruleset orderly_rules = (
  Orderly-pure, Orderly-or_fail, Orderly-map_error, Orderly-if, Orderly-round_trip, Orderly-check,
  Orderly-bind, Growing-read, Growing-insert_account, Growing-insert_deposit,
  Growing-update_balance, Growing-insert_transfer, Growing-insert_ledger_entry,
  Growing-select_accounts_for_update, Growing-select_transfer,
)
