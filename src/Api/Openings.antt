-- ===== src/Api/Openings.antt =====
-- What the status of POST /accounts says about the stored data.
use transfer_demo.Prelude.{◌≡◌, ◌≢◌, ◌<◌, refl, ap, ◌∙◌, inl, inr, Option, none, some}
use transfer_demo.Decimal.{Decimal, DecimalLaws}
use transfer_demo.Domain.{GoError}
use transfer_demo.Result.{Done, ok, err}
use transfer_demo.Database.{Database}
use transfer_demo.Action.Orderly.{All}
use transfer_demo.Audit.Soundness.{IsSound}
use transfer_demo.Service.Drift.{Drift, here, Allowed, KeepsSound}
use transfer_demo.Service.Accounts
use transfer_demo.Service.Accounts.Outcome.{CreateOutcome, create_once}
use transfer_demo.Api.{CreateAccountRequest, Context, Server}
use transfer_demo.Api.Mapping.{error_mapping, bad_request}
use transfer_demo.Api.Handlers.{create, created}
use transfer_demo.Api.Outcome.{lost_commit, is_500, respond_error-status, respond_error-world}

module _ ⦃dec : Decimal⦄ (laws : DecimalLaws dec) (Rely : Database → Database → Type 0)
    (keeps : KeepsSound Rely) where
  created_below_500 :
      (req : CreateAccountRequest dec) (start : Database) (r : Done) (c : Context) (s : Server)
      → CreateOutcome laws Rely keeps req.account_id req.initial_balance start r s.world.db
      → (created r c s).0.status ≢ 201
      → (created r c s).0.status < 500
      → Drift Rely start (created r c s).1.world.db
  unfolding created
  created_below_500 req start (ok u) c s o other low = absurd (other refl)
  created_below_500 req start (err e) c s (inl d) other low = rw respond_error-world d
  created_below_500 req start (err e) c s (inr (mid, f, lost, d, o)) other low =
      let status : (created (err e) c s).0.status ≡ 500 =
        respond_error-status "service" e c _
        ∙ ap (λ (x : GoError). (error_mapping x).0) lost
        ∙ lost_commit f in
      absurd (is_500 _ status low)

  -- If POST /accounts replies with a status below 500 other than 201, then the request has opened
  -- nothing: the database differs by what others committed and by the sequences that a rollback
  -- leaves. This stands under the conditions of create_once.
  pub create-refused :
      (c : Context) (s : Server) (allowed : All (Allowed Rely) s.world.events)
      (sound : IsSound s.world.db) (body : Option (CreateAccountRequest dec))
      → (create body c s).0.status ≢ 201
      → (create body c s).0.status < 500
      → Drift Rely s.world.db (create body c s).1.world.db
  unfolding create bad_request
  create-refused c s allowed sound none other low = here
  create-refused c s allowed sound (some req) other low =
      created_below_500 req s.world.db
        (Accounts.create req.account_id req.initial_balance s.world).0 c _
        (create_once laws Rely keeps req.account_id req.initial_balance s.world allowed sound) other
        low
