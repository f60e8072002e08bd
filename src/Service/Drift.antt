-- ===== src/Service/Drift.antt =====
-- The data under a call of a service while the call has had no effect yet: what other transactions
-- commit, and what rollbacks leave.
use transfer_demo.Prelude.{List, [], ◌∷◌}
use transfer_demo.Database.{Database}
use transfer_demo.Action.{Event}
use transfer_demo.Action.Orderly.{All, SeqLe}
use transfer_demo.Repository.Tx.{roll_back}
use transfer_demo.Repository.Tx.Outcome.{Harmless, HonestFault}
use transfer_demo.Audit.Soundness.{IsSound, roll_back-IsSound}

-- `db` comes from `start` by what others commit, as `Rely` says, and by rollbacks, which move only
-- sequences.
pub data Drift (Rely : Database → Database → Type 0) (start : Database) : Database → Type 0 where
  here : Drift Rely start start
  others :
      {db : Database} (db' : Database) → Drift Rely start db → Rely db db' → Drift Rely start db'
  rolled_back :
      {db : Database} (db' : Database)
      → Drift Rely start db
      → SeqLe db db'
      → Drift Rely start (roll_back db db')

-- What others commit is as `Rely` says, and the reply to a commit is honest.
abbrev pub Allowed : (Database → Database → Type 0) → Event → Type 0
Allowed Rely e = ((db : Database) → Rely db (e.others db)) × HonestFault e.landed e.fault

abbrev pub KeepsSound : (Database → Database → Type 0) → Type 0
KeepsSound Rely = (db db' : Database) → Rely db db' → IsSound db → IsSound db'

module _ (Rely : Database → Database → Type 0) (keeps : KeepsSound Rely) (start : Database) where
  -- Untouched by the call so far.
  abbrev pub Untouched : Database → Type 0
  Untouched db = Drift Rely start db × IsSound db

  pub Allowed-Harmless :
      (events : List Event) → All (Allowed Rely) events → All (Harmless Untouched) events
  Allowed-Harmless [] h = tt
  Allowed-Harmless (e ∷ events) h = (
    (λ db (d, s). (others (e.others db) d (h.0.0 db), keeps db (e.others db) (h.0.0 db) s), h.0.1),
    Allowed-Harmless events h.1,
  )

  pub roll_back-Untouched :
      (db db' : Database) → SeqLe db db' → Untouched db → Untouched (roll_back db db')
  roll_back-Untouched db db' le (d, s) = (rolled_back db' d le, roll_back-IsSound db db' le s)
