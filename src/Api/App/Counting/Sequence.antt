-- ===== src/Api/App/Counting/Sequence.antt =====
-- The metrics after a sequence of requests.
use transfer_demo.Api.{Ending, responded, panicked, Context, Server, Reply}
use transfer_demo.Prelude.{length, ℕ, ◌+◌, ◌≡◌, ap, List, [], ◌∷◌, String, arith}
use transfer_demo.Decimal.{Decimal}
use transfer_demo.Uuid.{UuidCodec}
use transfer_demo.Api.Probes.{with_id, public_chain-replies, public_chain-records}
use transfer_demo.Api.App.{Call, Arrival, handle, endpoint, public_server, serve, serve_all}
use transfer_demo.Api.App.Answers.Sequence.{calls_of}
use transfer_demo.Api.App.Counting.{
  count, is_error, is_request, is_completed, is_failed, is_opened, refusal, opening, completion,
  failure, Counted, handle-Counted,
}

module _ ⦃dec : Decimal⦄ where
  -- Over the answered calls.
  abbrev pub tally : (Call → Reply dec → ℕ) → List Call → List (Ending dec) → ℕ
  tally of [] replies = 0
  tally of (call ∷ calls) [] = 0
  tally of (call ∷ calls) (panicked v ∷ replies) = tally of calls replies
  tally of (call ∷ calls) (responded r ∷ replies) = of call r + tally of calls replies

module _ ⦃dec : Decimal⦄ ⦃uuid : UuidCodec⦄ where
  public_server-Counted :
      (fresh : String) (call : Call) (c : Context) (s : Server)
      → (r : Reply dec) × ((public_server fresh call c s).0 ≡ responded r)
        × Counted 1 call r s.metrics (public_server fresh call c s).2.metrics
  unfolding public_server endpoint
  public_server-Counted fresh call c s =
      let after = handle call (with_id fresh c) s in
      let recorded =
        ap (λ (t : Server). t.metrics) (public_chain-records fresh (endpoint call) c s) in
      let (requests, errors, completed, failed, opened) = handle-Counted call (with_id fresh c) s in
      (
        after.0,
        public_chain-replies fresh (endpoint call) c s,
        rw recorded (omega (arith, requests), errors, completed, failed, opened),
      )

  -- Whatever the surroundings do, a sequence of requests to the public server adds to the metrics
  -- one request for each of them, one error for each reply of 400 or above, one completed transfer
  -- for each POST /transactions answered with 200, one failed transfer for each with a readable body
  -- answered with 400 or above, and one created account for each POST /accounts answered with 201.
  pub serve_all-counts :
      (arrivals : List Arrival) (s : Server)
      → let (replies, last) = serve_all arrivals s in
        let calls = calls_of arrivals in
        (count is_request last.metrics ≡ count is_request s.metrics + length arrivals)
        × (count is_error last.metrics
            ≡ count is_error s.metrics + tally (λ call. refusal) calls replies)
        × (count is_completed last.metrics
            ≡ count is_completed s.metrics + tally completion calls replies)
        × (count is_failed last.metrics ≡ count is_failed s.metrics + tally failure calls replies)
        × (count is_opened last.metrics ≡ count is_opened s.metrics + tally opening calls replies)
  unfolding serve_all serve
  serve_all-counts [] s = omega arith
  serve_all-counts (a ∷ arrivals) s =
      let before : Server = record s { world = record { db = s.world.db; events = a.events } } in
      let (r, replied, step) = public_server-Counted a.fresh a.call a.context before in
      let rest = serve_all-counts arrivals (public_server a.fresh a.call a.context before).2 in
      rw replied (omega (arith, step, rest))
