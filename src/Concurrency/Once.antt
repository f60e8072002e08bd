-- ===== src/Concurrency/Once.antt =====
-- Sessions under one idempotency key, in every interleaving.
use transfer_demo.Prelude.{ℕ, ◌≡◌, ◌≢◌, ◌∙◌, refl, Bool, ◌&&◌, true, false, some, List}
use transfer_demo.Decimal.{Decimal, DecimalLaws, IsScaled}
use transfer_demo.Uuid.{UuidCodec}
use transfer_demo.Database.{Database, key_taken}
use transfer_demo.Audit.Soundness.{IsSound}
use transfer_demo.Service.Transfers.{TransferCmd}
use transfer_demo.Concurrency.{System, Reach}
use transfer_demo.Concurrency.Safety.{interleaving-IsSound}
use transfer_demo.Concurrency.Bank.{Operation, recorded, has_session, key_of}
use transfer_demo.Concurrency.Bank.Keys.{recorded-IsKeyedOnce, stands-recorded, once, never}
use transfer_demo.Concurrency.Serial.{Explains}

not_both : (a b : Bool) → (a ≡ true → b ≡ true → ⊥) → (a && b) ≡ false
not_both true true h = absurd (h refl refl)
not_both true false h = refl
not_both false b h = refl

module _ ⦃dec : Decimal⦄ ⦃uuid : UuidCodec⦄ (laws : DecimalLaws dec) (cmd : ℕ → TransferCmd dec)
    (n : ℕ) (scaled : (i : ℕ) → IsScaled dec (cmd i).amount) {db : Database} (sound : IsSound db)
    {s : System} where
  -- In every interleaving from sound data, with amounts of at most 18 decimals, and in every history
  -- that explains it: of two sessions whose commands stand under one key at most one has moved, and
  -- neither has if the key was stored at the start.
  pub once_per_key :
      Reach cmd n db s
      → (ops : List Operation) → Explains cmd n db ops s
      → (i j u : ℕ) → i ≢ j
      → key_of cmd i ≡ some u
      → key_of cmd j ≡ some u
      → ((has_session i ops && has_session j ops) ≡ false)
        × ((has_session i ops && key_taken (some u) db.transfers) ≡ false)
  once_per_key r ops x i j u apart e f =
      let keyed = rw x.written at (
        recorded-IsKeyedOnce s.db.transfers
          (interleaving-IsSound laws cmd n scaled sound r).keys) in
      (
        not_both (has_session i ops) (has_session j ops)
            (λ h g. apart (once cmd (recorded db.transfers) i j u ops keyed e f h g)),
        not_both (has_session i ops) (key_taken (some u) db.transfers) (λ h g.
            let absent =
              never cmd (recorded db.transfers) i u ops keyed e
                (stands-recorded u db.transfers ∙ g) in
            cc),
      )
