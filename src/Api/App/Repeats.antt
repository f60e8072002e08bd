-- ===== src/Api/App/Repeats.antt =====
-- A client that repeats POST /transactions.
use transfer_demo.Api.{responded, Context, TransferRequest, Server}
use text.Mathlib.Text.{◌==◌}
use transfer_demo.Prelude.{ℕ, ◌≡◌, ◌∙◌, ap, refl, true, false, some, String}
use transfer_demo.Decimal.{Decimal, DecimalLaws}
use transfer_demo.Uuid.{UuidCodec}
use transfer_demo.Domain.{Transfer}
use transfer_demo.Result.{Result, ok}
use transfer_demo.Action.{World}
use transfer_demo.Action.Quiet.{quietly}
use transfer_demo.Database.{Database}
use transfer_demo.Database.Accounts.{IsUnique}
use transfer_demo.Repository.Transfers.{scan_transfer}
use transfer_demo.Service.Transfers.{transfer}
use transfer_demo.Service.Transfers.Effect.{moved}
use transfer_demo.Service.Transfers.Validation.{IsAcceptable}
use transfer_demo.Service.Transfers.Progress.{IsExecutable, receipt, transfer-succeeds}
use transfer_demo.Service.Transfers.Retry.{row_of, read_back, transfer-repeats}
use transfer_demo.Api.Handlers.{command, transferred, handle_transfer}
use transfer_demo.Api.Probes.{with_id, public_chain-replies, public_chain-records}
use transfer_demo.Api.App.{post_transaction, handle, endpoint, public_server}
use transfer_demo.Api.App.Answers.{transfer_reply}

module _ ⦃dec : Decimal⦄ ⦃uuid : UuidCodec⦄ (req : TransferRequest dec) (key : String) where
  handle_transfer-ok :
      (c : Context) (s : Server) (t : Transfer dec) (w : World)
      → transfer (command req key) s.world ≡ (ok t, w)
      → ((handle_transfer (some req) key c s).0 ≡ transfer_reply t)
        × ((handle_transfer (some req) key c s).1.world ≡ w)
  unfolding handle_transfer transferred
  handle_transfer-ok c s t w e = rw e (refl, refl)

  posted :
      (fresh : String) (c : Context) (s : Server) (t : Transfer dec) (w : World)
      → transfer (command req key) s.world ≡ (ok t, w)
      → ((public_server fresh (post_transaction (some req) key) c s).0
          ≡ responded (transfer_reply t))
        × ((public_server fresh (post_transaction (some req) key) c s).2.world ≡ w)
  unfolding public_server endpoint handle
  posted fresh c s t w e =
      let next = endpoint (post_transaction (some req) key) in
      let (replied, left) = handle_transfer-ok (with_id fresh c) s t w e in
      (
        public_chain-replies fresh next c s ∙ ap responded replied,
        ap (λ (s' : Server). s'.world) (public_chain-records fresh next c s) ∙ left,
      )

  module _ (laws : DecimalLaws dec) (db : Database) (acceptable : IsAcceptable (command req key))
      (unique : IsUnique db.accounts) (can : IsExecutable (command req key) db) (u : ℕ)
      (keyed : (key == "") ≡ false) (casts : uuid.cast key ≡ some u) where
    -- The data after the first request.
    abbrev after_moving : Database
    after_moving =
        moved can.key req.source_account_id req.destination_account_id (dec.to_numeric req.amount)
          can.source.balance can.destination.balance db

    module _ (fresh fresh' : String) (c c' : Context) (s s' : Server)
        (at_rest : s.world ≡ quietly db)
        (follows : s'.world
          ≡ (public_server fresh (post_transaction (some req) key) c s).2.world) where
      first :
          ((public_server fresh (post_transaction (some req) key) c s).0
            ≡ responded (transfer_reply (receipt (command req key) db)))
          × ((public_server fresh (post_transaction (some req) key) c s).2.world
              ≡ quietly after_moving)
      first =
          posted fresh c s (receipt (command req key) db) (quietly after_moving)
            (rw at_rest (transfer-succeeds laws (command req key) db acceptable unique can))

      again :
          transfer (command req key) s'.world
          ≡ (ok (scan_transfer (row_of laws (command req key) u db)), quietly after_moving)
      again =
          let after : (transfer (command req key) (quietly db)).1 ≡ quietly after_moving =
            ap (λ (p : Result (Transfer dec) × World). p.1)
              (transfer-succeeds laws (command req key) db acceptable unique can) in
          rw (follows, first.1)
            (rw after at
              (transfer-repeats laws (command req key) db acceptable unique can u keyed casts))

      -- If nobody interferes and the account ids are unique, then a request that can be carried out,
      -- sent twice under one free key, is answered twice with 200, with the same transaction id,
      -- accounts and status and with numerically equal amounts, and the amount has moved once.
      pub public_server-repeats :
          (t t' : Transfer dec) × ((public_server fresh (post_transaction (some req) key) c s).0
            ≡ responded (transfer_reply t))
          × ((public_server fresh' (post_transaction (some req) key) c' s').0
              ≡ responded (transfer_reply t'))
          × (t'.id ≡ t.id)
          × (t'.source_id ≡ t.source_id)
          × (t'.destination_id ≡ t.destination_id)
          × (t'.status ≡ t.status)
          × (dec.equal t'.amount t.amount ≡ true)
          × ((public_server fresh' (post_transaction (some req) key) c' s').2.world
              ≡ quietly after_moving)
      public_server-repeats =
          let second = posted fresh' c' s' _ _ again in
          (
            receipt (command req key) db,
            scan_transfer (row_of laws (command req key) u db),
            first.0,
            second.0,
            refl,
            refl,
            refl,
            refl,
            read_back laws (command req key) acceptable.storable.0,
            second.1,
          )
