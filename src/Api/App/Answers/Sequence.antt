-- ===== src/Api/App/Answers/Sequence.antt =====
-- Sequences of requests against the state machine.
use transfer_demo.Api.{Ending, responded, Server}
use transfer_demo.Prelude.{◌≡◌, refl, ap, ◌∙◌, List, [], ◌∷◌}
use transfer_demo.Decimal.{Decimal, DecimalLaws}
use transfer_demo.Uuid.{UuidCodec}
use transfer_demo.Database.{Database}
use transfer_demo.Action.{Event, World}
use transfer_demo.Action.Quiet.{quietly}
use transfer_demo.Audit.Soundness.{IsSound}
use transfer_demo.Service.Drift.{KeepsSound}
use transfer_demo.Service.Transfers.Decision.Agreement.{AllFit}
use transfer_demo.Api.App.{Call, Arrival, serve, serve_all}
use transfer_demo.Api.App.Soundness.{serve-IsSound}
use transfer_demo.Api.App.Answers.{answer, answers}
use transfer_demo.Api.App.Answers.Agreement.{public_server-answer}
use transfer_demo.Api.App.Answers.Ranges.{answer-AllFit}

-- Nobody else writes.
abbrev Same : Database → Database → Type 0
Same db db' = db' ≡ db

keeps_same : KeepsSound Same
keeps_same db db' e s = rw e s

module _ ⦃dec : Decimal⦄ ⦃uuid : UuidCodec⦄ where
  abbrev pub calls_of : List Arrival → List Call
  calls_of [] = []
  calls_of (a ∷ arrivals) = a.call ∷ calls_of arrivals

  -- No fault, and no commit of others.
  abbrev pub AreQuiet : List Arrival → Type 0
  AreQuiet [] = Unit
  AreQuiet (a ∷ arrivals) = (a.events ≡ []) × AreQuiet arrivals

  module _ (laws : DecimalLaws dec) where
    pub serve-answer :
        (a : Arrival) (s : Server)
        → a.events ≡ []
        → IsSound s.world.db
        → AllFit s.world.db
        → ((serve a s).0 ≡ responded (answer a.call s.world.db).0)
          × ((serve a s).2.world ≡ quietly (answer a.call s.world.db).1)
    unfolding serve
    serve-answer a s e sound fits =
        public_server-answer laws s.world.db sound.unique fits a.fresh a.call a.context _
          (ap (λ (events : List Event). record { db = s.world.db; events = events }) e)

    pub kept :
        (a : Arrival) (s : Server)
        → a.events ≡ []
        → IsSound s.world.db
        → IsSound (serve a s).2.world.db
    kept a s e sound = serve-IsSound laws Same keeps_same a s (rw e tt) sound

    -- Requests that the public server serves one after another, with no faults and nobody else
    -- writing, are answered exactly as the state machine answers their calls, and leave the database
    -- that it leaves, from sound data with the balances in the range of their column.
    pub serve_all-answers :
        (arrivals : List Arrival) (s : Server)
        → AreQuiet arrivals
        → IsSound s.world.db
        → AllFit s.world.db
        → ((serve_all arrivals s).0 ≡ (answers (calls_of arrivals) s.world.db).0)
          × ((serve_all arrivals s).1.world.db ≡ (answers (calls_of arrivals) s.world.db).1)
    unfolding serve_all answers
    serve_all-answers [] s q sound fits = (refl, refl)
    serve_all-answers (a ∷ arrivals) s (e, q) sound fits =
        let (replied, left) = serve-answer a s e sound fits in
        let same = ap (λ (w : World). w.db) left in
        let rest =
          serve_all-answers arrivals (serve a s).2 q (kept a s e sound)
            (rw same (answer-AllFit laws a.call s.world.db fits)) in
        let (replies, last) = rw same at rest in
        (
          ap (λ (r : Ending dec). r ∷ (serve_all arrivals (serve a s).2).0) replied
              ∙ ap (λ (rs : List (Ending dec)). responded (answer a.call s.world.db).0 ∷ rs)
                  replies,
          last,
        )
