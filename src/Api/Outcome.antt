-- ===== src/Api/Outcome.antt =====
-- What the status of POST /transactions says about the stored data.
use transfer_demo.Prelude.{
  ℕ, ◌≡◌, ◌≢◌, ◌<◌, ◌≤◌, refl, ap, sym, ◌∙◌, inl, inr, Option, none, some, String, arith,
}
use transfer_demo.Decimal.{Decimal, DecimalLaws}
use transfer_demo.Uuid.{UuidCodec}
use transfer_demo.Domain.{GoError, wrap, Transfer, errors_is}
use transfer_demo.Result.{Result, ok, err}
use transfer_demo.Database.{Database}
use transfer_demo.Action.{Fault, server, driver, fault_error}
use transfer_demo.Action.Orderly.{All}
use transfer_demo.Audit.Soundness.{IsSound}
use transfer_demo.Service.Drift.{Drift, here, Allowed, KeepsSound}
use transfer_demo.Service.Transfers.{TransferCmd, transfer}
use transfer_demo.Service.Transfers.Outcome.{TransferOutcome, transfer_once}
use transfer_demo.Api.{TransferRequest, Context, Server, transaction_body}
use transfer_demo.Api.Mapping.{error_mapping, respond_error, bad_request}
use transfer_demo.Api.Handlers.{command, transferred, handle_transfer}

-- A lost reply is an internal error.
pub lost_commit : (f : Fault) → (error_mapping (wrap "commit" (fault_error f))).0 ≡ 500
unfolding error_mapping errors_is
lost_commit (server e) = refl
lost_commit (driver m) = refl

-- Every error is answered as one.
pub refusing : (e : GoError) → 400 ≤ (error_mapping e).0
unfolding error_mapping
refusing e = ground arith

never_200 : (e : GoError) → (error_mapping e).0 ≢ 200
never_200 e h = omega (arith, refusing e, h)

pub is_500 : (n : ℕ) → n ≡ 500 → ¬ (n < 500)
is_500 n e = omega arith

module _ ⦃dec : Decimal⦄ where
  pub respond_error-status :
      (layer : String) (e : GoError) (c : Context) (s : Server)
      → (respond_error layer e c s).0.status ≡ (error_mapping e).0
  unfolding respond_error
  respond_error-status layer e c s = ground arith

  pub respond_error-world :
      (layer : String) (e : GoError) (c : Context) (s : Server)
      → (respond_error layer e c s).1.world ≡ s.world
  unfolding respond_error
  respond_error-world layer e c s = ground arith

module _ ⦃dec : Decimal⦄ ⦃uuid : UuidCodec⦄ (laws : DecimalLaws dec)
    (Rely : Database → Database → Type 0) (keeps : KeepsSound Rely) where
  -- A client error, or a redirection: the call had no effect.
  reply_below_500 :
      (start : Database) (cmd : TransferCmd dec) (r : Result (Transfer dec)) (c : Context)
      (s : Server)
      → TransferOutcome laws Rely keeps start cmd r s.world.db
      → (transferred r c s).0.status ≢ 200
      → (transferred r c s).0.status < 500
      → Drift Rely start (transferred r c s).1.world.db
  unfolding transferred
  reply_below_500 start cmd (ok t) c s o other low = absurd (other refl)
  reply_below_500 start cmd (err e) c s (inl d) other low = rw respond_error-world d
  reply_below_500 start cmd (err e) c s (inr (mid, t, f, lost, d, m)) other low =
      let status : (transferred (err e) c s).0.status ≡ 500 =
        respond_error-status "service" e c _
        ∙ ap (λ (x : GoError). (error_mapping x).0) lost
        ∙ lost_commit f in
      absurd (is_500 _ status low)

  -- The reply 200 carries the transfer.
  reply_200 :
      (start : Database) (cmd : TransferCmd dec) (r : Result (Transfer dec)) (c : Context)
      (s : Server)
      → TransferOutcome laws Rely keeps start cmd r s.world.db
      → (transferred r c s).0.status ≡ 200
      → (t : Transfer dec) × ((transferred r c s).0.body
          ≡ transaction_body (record {
            transaction_id = t.id;
            source_account_id = t.source_id;
            destination_account_id = t.destination_id;
            amount = t.amount;
            status = t.status;
          }))
        × TransferOutcome laws Rely keeps start cmd (ok t) (transferred r c s).1.world.db
  unfolding transferred
  reply_200 start cmd (ok t) c s o e = (t, refl, o)
  reply_200 start cmd (err e) c s o h =
      absurd (never_200 e (sym (respond_error-status "service" e c _) ∙ h))

  module _ (key : String) (c : Context) (s : Server) (allowed : All (Allowed Rely) s.world.events)
      (sound : IsSound s.world.db) where
    -- If POST /transactions replies with a status below 500 other than 200, then the request has
    -- moved nothing: the database differs by what others committed and by the sequences that a
    -- rollback leaves. This stands under the conditions of transfer_once.
    pub handle_transfer-refused :
        (body : Option (TransferRequest dec))
        → (handle_transfer body key c s).0.status ≢ 200
        → (handle_transfer body key c s).0.status < 500
        → Drift Rely s.world.db (handle_transfer body key c s).1.world.db
    unfolding handle_transfer bad_request
    handle_transfer-refused none other low = here
    handle_transfer-refused (some req) other low =
        reply_below_500 s.world.db (command req key) (transfer (command req key) s.world).0 c _
          (transfer_once laws Rely keeps (command req key) s.world allowed sound) other low

    -- If POST /transactions replies 200 to a request with a body, then the reply carries a transfer
    -- whose amount has moved once, or that stands under the key with the same accounts and amount
    -- while nothing has moved. This stands under the conditions of transfer_once.
    pub handle_transfer-answered :
        (req : TransferRequest dec)
        → (handle_transfer (some req) key c s).0.status ≡ 200
        → (t : Transfer dec) × ((handle_transfer (some req) key c s).0.body
            ≡ transaction_body (record {
              transaction_id = t.id;
              source_account_id = t.source_id;
              destination_account_id = t.destination_id;
              amount = t.amount;
              status = t.status;
            }))
          × TransferOutcome laws Rely keeps s.world.db
              (command req key)
              (ok t)
              (handle_transfer (some req) key c s).1.world.db
    unfolding handle_transfer
    handle_transfer-answered req h =
        reply_200 s.world.db (command req key) (transfer (command req key) s.world).0 c _
          (transfer_once laws Rely keeps (command req key) s.world allowed sound) h
