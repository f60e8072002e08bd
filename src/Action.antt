-- ===== src/Action.antt =====
-- Calls of the database. An action reads and writes the database that its querier sees, and the
-- surroundings decide by a list of events how each round trip goes: what other transactions have
-- committed meanwhile, and a fault of the server or the driver.
pub mod Ensures
pub mod Quiet
pub mod Orderly
use transfer_demo.Prelude.{
  Bool, true, false, Option, none, some, List, [], ◌∷◌, String, ◌≡◌, refl, if◌then◌else◌,
}
use transfer_demo.Domain.{GoError, PgError, pg_error, other, wrap}
use transfer_demo.Result.{Result, ok, err}
use transfer_demo.Database.{Database}
use transfer_demo.Database.Statements.{Statement}

-- What a driver call returns that did not do its work: an error of the server, or one of the
-- connection or the context, which wraps none of the program's own.
pub data Fault : Type 0 where
  server : PgError → Fault
  driver : String → Fault

abbrev pub fault_error : Fault → GoError
fault_error (server e) = pg_error e
fault_error (driver m) = other m

-- `landed` is read at a commit whose reply is lost: whether the server has carried it out.
pub record Event : Type 0 where
  pub others : Database → Database
  pub fault : Option Fault
  pub landed : Bool

abbrev pub quiet : Event
quiet = record { others = λ db. db; fault = none; landed = false }

pub record World : Type 0 where
  pub db : Database
  pub events : List Event

-- After the list has ended every round trip is quiet.
abbrev pub this_event : List Event → Event
this_event [] = quiet
this_event (e ∷ events) = e

abbrev pub later_events : List Event → List Event
later_events [] = []
later_events (e ∷ events) = events

-- repository.Querier: a statement runs on the pool or in a transaction. On the pool it sees what
-- others have committed since; in a transaction it sees the transaction's own state.
pub data Querier : Type 0 where
  pool tx : Querier

abbrev pub arrive : Querier → Event → Database → Database
arrive pool e db = e.others db
arrive tx e db = db

abbrev pub Action : Type 0 → Type 0
Action A = World → Result A × World

module _ {A : Type 0} where
  abbrev pub pure : A → Action A
  pure a w = (ok a, w)

  abbrev pub fail : GoError → Action A
  fail e w = (err e, w)

  unfoldable pub or_fail : Option A → GoError → Action A
  or_fail none e = fail e
  or_fail (some a) e = pure a

  -- One call of the driver.
  unfoldable pub attempt : Option Fault → Statement A → List Event → Database → Result A × World
  attempt none statement events db =
      let (r, db') = statement db in (r, record { db = db'; events = events })
  attempt (some f) statement events db = (err (fault_error f), record { db = db; events = events })

  unfoldable pub round_trip : Querier → Statement A → Action A
  unfolding attempt
  round_trip q statement w =
      let e = this_event w.events in
      attempt e.fault statement (later_events w.events) (arrive q e w.db)

  -- `return …, fmt.Errorf("m: %w", err)` and other handling of an error.
  abbrev pub on_error : (GoError → GoError) → Result A → Result A
  on_error f (ok a) = ok a
  on_error f (err e) = err (f e)

  unfoldable pub map_error : (GoError → GoError) → Action A → Action A
  map_error f m w = let (r, w') = m w in (on_error f r, w')

  abbrev pub wrapping : String → Action A → Action A
  wrapping m = map_error (wrap m)

infixl 5 ◌>>=◌ ◌>>◌
unfoldable pub ◌>>=◌ : {A B : Type 0} → Action A → (A → Action B) → Action B
◌>>=◌ m f w = let (r, w') = m w in elim r [ ok a ↦ f a w' | err e ↦ (err e, w') ]

abbrev pub ◌>>◌ : {A B : Type 0} → Action A → Action B → Action B
m >> k = m >>= λ _. k

-- `if err := …; err != nil { return err }`
unfoldable pub check : Option GoError → Action Unit
check none = pure tt
check (some e) = fail e
