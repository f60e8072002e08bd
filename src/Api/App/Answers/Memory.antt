-- ===== src/Api/App/Answers/Memory.antt =====
-- What the state machine, and the public server with it, keeps from one request to the next.
use transfer_demo.Prelude.{
  ◌≡◌, refl, ap, inl, inr, Option, none, some, List, [], ◌∷◌, ℤ, pos, ltb_ℤ, Bool-cases,
}
use transfer_demo.Decimal.{Decimal, DecimalLaws}
use transfer_demo.Uuid.{UuidCodec}
use transfer_demo.Domain.{GoError}
use transfer_demo.Database.{Database, AccountRow, find_account}
use transfer_demo.Action.{World}
use transfer_demo.Audit.Soundness.{IsSound}
use transfer_demo.Service.Money.{validate_account_id, validate_initial_balance}
use transfer_demo.Service.Accounts.Effect.{opened}
use transfer_demo.Service.Accounts.Decision.{
  create_decision, with_id_checked, with_balance_checked, opening,
}
use transfer_demo.Service.Transfers.Decision.Agreement.{AllFit}
use transfer_demo.Service.Transfers.Decision.Memory.{KeepsKeys, decision-KeepsKeys}
use transfer_demo.Api.{Server}
use transfer_demo.Api.Handlers.{command}
use transfer_demo.Api.App.{
  Call, create_account, get_account, post_transaction, Arrival, serve, serve_all,
}
use transfer_demo.Api.App.Answers.{answer}
use transfer_demo.Api.App.Answers.Ranges.{answer-AllFit}
use transfer_demo.Api.App.Answers.Sequence.{AreQuiet, serve-answer, kept}

opened-transfers : (id n : ℤ) (db : Database) → (opened id n db).transfers ≡ db.transfers
opened-transfers id n db = elim (Bool-cases (ltb_ℤ (pos 0) n)) [
  | inl h ↦ rw h refl
  | inr h ↦ rw h refl
]

module _ ⦃dec : Decimal⦄ (id : ℤ) (balance : dec.Value) (db : Database) where
  opening-KeepsKeys : (o : Option AccountRow) → KeepsKeys db (opening id balance db o).1
  opening-KeepsKeys none u row e = rw (opened-transfers id (dec.to_numeric balance) db) e
  opening-KeepsKeys (some r) u row e = e

  with_balance_checked-KeepsKeys :
      (o : Option GoError) → KeepsKeys db (with_balance_checked id balance db o).1
  with_balance_checked-KeepsKeys none u row e =
      opening-KeepsKeys (find_account id db.accounts) u row e
  with_balance_checked-KeepsKeys (some x) u row e = e

  with_id_checked-KeepsKeys :
      (o : Option GoError) → KeepsKeys db (with_id_checked id balance db o).1
  with_id_checked-KeepsKeys none u row e =
      with_balance_checked-KeepsKeys (validate_initial_balance balance) u row e
  with_id_checked-KeepsKeys (some x) u row e = e

  create_decision-KeepsKeys : KeepsKeys db (create_decision id balance db).1
  unfolding create_decision
  create_decision-KeepsKeys = with_id_checked-KeepsKeys (validate_account_id id)

module _ ⦃dec : Decimal⦄ ⦃uuid : UuidCodec⦄ where
  answer-KeepsKeys : (call : Call) (db : Database) → KeepsKeys db (answer call db).1
  unfolding answer
  answer-KeepsKeys (create_account none) db u row e = e
  answer-KeepsKeys (create_account (some req)) db u row e =
      create_decision-KeepsKeys req.account_id req.initial_balance db u row e
  answer-KeepsKeys (get_account account_id) db u row e = e
  answer-KeepsKeys (post_transaction none key) db u row e = e
  answer-KeepsKeys (post_transaction (some req) key) db u row e =
      decision-KeepsKeys (command req key) db u row e

  -- The data before a request that the state machine answers as the server does.
  abbrev pub IsReady : Database → Type 0
  IsReady db = IsSound db × AllFit db

  module _ (laws : DecimalLaws dec) where
    pub serve-IsReady :
        (a : Arrival) (s : Server)
        → a.events ≡ []
        → IsReady s.world.db
        → IsReady (serve a s).2.world.db × KeepsKeys s.world.db (serve a s).2.world.db
    serve-IsReady a s e (sound, fits) =
        let (replied, left) = serve-answer laws a s e sound fits in
        let same = ap (λ (w : World). w.db) left in
        (
          (kept laws a s e sound, rw same (answer-AllFit laws a.call s.world.db fits)),
          rw same (answer-KeepsKeys a.call s.world.db),
        )

    pub serve_all-IsReady :
        (arrivals : List Arrival) (s : Server)
        → AreQuiet arrivals
        → IsReady s.world.db
        → IsReady (serve_all arrivals s).1.world.db
          × KeepsKeys s.world.db (serve_all arrivals s).1.world.db
    unfolding serve_all
    serve_all-IsReady [] s q ready = (ready, λ u row e. e)
    serve_all-IsReady (a ∷ arrivals) s (e, q) ready =
        let (ready', keeps) = serve-IsReady a s e ready in
        let (last, keeps') = serve_all-IsReady arrivals (serve a s).2 q ready' in
        (last, λ u row h. keeps' u row (keeps u row h))
