-- ===== src/Api/App/Answers/Repeated.antt =====
-- A client that repeats POST /transactions after other requests.
use transfer_demo.Api.{
  responded, Context, Server, Reply, Body, TransferRequest, TransactionResponse, transaction_body,
}
use text.Mathlib.Text.{◌==◌}
use transfer_demo.Prelude.{
  ℕ, ◌≡◌, ◌∙◌, refl, sym, ap, inl, inr, true, false, some, List, [], String, leb, eq_ℤ_iff, arith,
  Bool-cases,
}
use transfer_demo.Decimal.{Decimal, DecimalLaws}
use transfer_demo.Uuid.{UuidCodec}
use transfer_demo.Domain.{GoError, Transfer}
use transfer_demo.Result.{Result, ok, err}
use transfer_demo.Database.{Database}
use transfer_demo.Action.{World}
use transfer_demo.Repository.Transfers.{scan_transfer}
use transfer_demo.Service.Transfers.{TransferCmd, matches_cmd}
use transfer_demo.Service.Transfers.Validation.{IsAcceptable}
use transfer_demo.Service.Transfers.Decision.{decision}
use transfer_demo.Service.Transfers.Decision.Memory.{
  Stored, Remembered, decision-Remembered, decision-again,
}
use transfer_demo.Audit.Soundness.{IsSound}
use transfer_demo.Service.Transfers.Decision.Agreement.{AllFit}
use transfer_demo.Api.Mapping.{error_mapping}
use transfer_demo.Api.Outcome.{refusing}
use transfer_demo.Api.Handlers.{command}
use transfer_demo.Api.App.{post_transaction, Arrival, serve, serve_all}
use transfer_demo.Api.App.Answers.{answer, error_reply, transferred_reply}
use transfer_demo.Api.App.Answers.Sequence.{AreQuiet, serve-answer}
use transfer_demo.Api.App.Answers.Memory.{IsReady, serve-IsReady, serve_all-IsReady}

module _ ⦃dec : Decimal⦄ where
  error_reply-status : (e : GoError) → (error_reply e).status ≡ (error_mapping e).0
  error_reply-status e = elim (Bool-cases (leb 500 (error_mapping e).0)) [
    | inl h ↦ rw h refl
    | inr h ↦ rw h refl
  ]

  abbrev response_or : TransactionResponse dec → Body dec → TransactionResponse dec
  response_or b (transaction_body b') = b'
  response_or b _ = b

  abbrev response : Transfer dec → TransactionResponse dec
  response t = record {
    transaction_id = t.id;
    source_account_id = t.source_id;
    destination_account_id = t.destination_id;
    amount = t.amount;
    status = t.status;
  }

  abbrev pub accepted : TransactionResponse dec → Reply dec
  accepted b = record { status = 200; body = transaction_body b }

  matched :
      (cmd : TransferCmd dec) (t : Transfer dec)
      → matches_cmd t cmd ≡ true
      → (t.source_id ≡ cmd.source_id)
        × (t.destination_id ≡ cmd.destination_id)
        × (dec.equal t.amount cmd.amount ≡ true)
  unfolding matches_cmd
  matched cmd t m =
      ground
        (arith, m, eq_ℤ_iff t.source_id cmd.source_id, eq_ℤ_iff t.destination_id cmd.destination_id)

module _ ⦃dec : Decimal⦄ ⦃uuid : UuidCodec⦄ (laws : DecimalLaws dec) (cmd : TransferCmd dec)
    (u : ℕ) where
  accepted_once :
      (b : TransactionResponse dec) (p : Result (Transfer dec) × Database)
      → Remembered laws cmd u p
      → transferred_reply p.0 ≡ accepted b
      → IsAcceptable cmd
        × (t : Transfer dec) × Stored laws cmd u t p.1
        × (t.id ≡ b.transaction_id)
        × (t.status ≡ b.status)
  accepted_once b (ok t, db) (acceptable, stored) e =
      let same = ap (λ (r : Reply dec). response_or b r.body) e in
      (
        acceptable,
        t,
        stored,
        ap (λ (b' : TransactionResponse dec). b'.transaction_id) same,
        ap (λ (b' : TransactionResponse dec). b'.status) same,
      )
  accepted_once b (err x, db) m e =
      let status : (error_mapping x).0 ≡ 200 =
        sym (error_reply-status x) ∙ ap (λ (r : Reply dec). r.status) e in
      absurd (omega (arith, refusing x, status))

module _ ⦃dec : Decimal⦄ ⦃uuid : UuidCodec⦄ where
  -- The request, with nobody interfering.
  abbrev pub asking : TransferRequest dec → String → Context → String → Arrival
  asking req key c fresh = record {
    context = c;
    fresh = fresh;
    call = post_transaction (some req) key;
    events = [];
  }

module _ ⦃dec : Decimal⦄ ⦃uuid : UuidCodec⦄ (laws : DecimalLaws dec) (req : TransferRequest dec)
    (key : String) (u : ℕ) (keyed : (key == "") ≡ false) (casts : uuid.cast key ≡ some u) where
  asking-answer :
      (c : Context) (fresh : String) (s : Server)
      → IsReady s.world.db
      → ((serve (asking req key c fresh) s).0
          ≡ responded (transferred_reply (decision (command req key) s.world.db).0))
        × ((serve (asking req key c fresh) s).2.world.db
            ≡ (decision (command req key) s.world.db).1)
  unfolding answer
  asking-answer c fresh s (sound, fits) =
      let (replied, left) = serve-answer laws (asking req key c fresh) s refl sound fits in
      (replied, ap (λ (w : World). w.db) left)

  again :
      (t : Transfer dec) (c : Context) (fresh : String) (s : Server)
      → IsReady s.world.db
      → IsAcceptable (command req key)
      → Stored laws (command req key) u t s.world.db
      → (b : TransactionResponse dec) × ((serve (asking req key c fresh) s).0
          ≡ responded (accepted b))
        × (b.transaction_id ≡ t.id)
        × (b.status ≡ t.status)
        × (b.source_account_id ≡ req.source_account_id)
        × (b.destination_account_id ≡ req.destination_account_id)
        × (dec.equal b.amount req.amount ≡ true)
        × ((serve (asking req key c fresh) s).2.world.db ≡ s.world.db)
  again t c fresh s ready acceptable (row, found, matches, same_id, same_status) =
      let stored : Stored laws (command req key) u t s.world.db =
        (row, found, matches, same_id, same_status) in
      let decided =
        decision-again laws (command req key) u keyed casts s.world.db t acceptable stored in
      let (replied, wrote) = asking-answer c fresh s ready in
      let (source, destination, amount) = matched (command req key) (scan_transfer row) matches in
      (
        response (scan_transfer row),
        replied ∙ ap (λ p. responded (transferred_reply p.0)) decided,
        same_id,
        same_status,
        source,
        destination,
        amount,
        wrote ∙ ap (λ p. p.1) decided,
      )

  module _ (c c' : Context) (fresh fresh' : String) (others : List Arrival) (s : Server)
      (b : TransactionResponse dec) (quiet : AreQuiet others) (sound : IsSound s.world.db)
      (fits : AllFit s.world.db)
      (answered : (serve (asking req key c fresh) s).0 ≡ responded (accepted b)) where
    -- A POST /transactions under a readable key that was answered with 200, sent again after any
    -- sequence of requests to the public server, is answered with 200, with the same transaction id
    -- and status, with its accounts and numerically its amount, and writes nothing. There are no
    -- faults and nobody else writes, the data was sound before the first time, and the stored
    -- balances were in the range of their column.
    pub serve-remembers :
        let later : Server = (serve_all others (serve (asking req key c fresh) s).2).1 in
        (b' : TransactionResponse dec) × ((serve (asking req key c' fresh') later).0
          ≡ responded (accepted b'))
        × (b'.transaction_id ≡ b.transaction_id)
        × (b'.status ≡ b.status)
        × (b'.source_account_id ≡ req.source_account_id)
        × (b'.destination_account_id ≡ req.destination_account_id)
        × (dec.equal b'.amount req.amount ≡ true)
        × ((serve (asking req key c' fresh') later).2.world.db ≡ later.world.db)
    serve-remembers =
        let later : Server = (serve_all others (serve (asking req key c fresh) s).2).1 in
        let (first, wrote) = asking-answer c fresh s (sound, fits) in
        let e : responded (transferred_reply (decision (command req key) s.world.db).0)
            ≡ responded (accepted b) =
          sym first ∙ answered in
        let (acceptable, t, (row, found, matches, same_id, same_status), id, status) =
          accepted_once laws (command req key) u b (decision (command req key) s.world.db)
            (decision-Remembered laws (command req key) u keyed casts s.world.db) cc in
        let (ready, keeps) = serve-IsReady laws (asking req key c fresh) s refl (sound, fits) in
        let (ready', keeps') =
          serve_all-IsReady laws others (serve (asking req key c fresh) s).2 quiet ready in
        let still = keeps' u row (rw wrote found) in
        let (b', replied, id', status', source, destination, amount, unchanged) =
          again t c' fresh' later ready' acceptable (row, still, matches, same_id, same_status) in
        (b', replied, id' ∙ id, status' ∙ status, source, destination, amount, unchanged)
