-- ===== src/Service/Accounts/Outcome.antt =====
-- The outcomes of opening an account, however the round trips go and whatever other transactions
-- commit between them.
use transfer_demo.Prelude.{◌≡◌, refl, ◌⊎◌, inl, inr, none, some, Option, ℤ}
use transfer_demo.Decimal.{Decimal, DecimalLaws, IsScaled}
use transfer_demo.Domain.{GoError, wrap}
use transfer_demo.Result.{Done, ok, err}
use transfer_demo.Database.{Database}
use transfer_demo.Action.{Fault, fault_error, World, Action, tx, check, ◌>>=◌}
use transfer_demo.Action.Ensures.{Ensures-imp}
use transfer_demo.Action.Orderly.{All}
use transfer_demo.Audit.Soundness.{IsSound}
use transfer_demo.Audit.Soundness.Openings.{opened-IsSound}
use transfer_demo.Repository.Accounts
use transfer_demo.Repository.Tx.{with_tx}
use transfer_demo.Repository.Tx.Outcome.{Outcome, with_tx-Outcome}
use transfer_demo.Service.Accounts.{create}
use transfer_demo.Service.Accounts.Effect.{Opened, create-Ensures}
use transfer_demo.Service.Drift.{
  Drift, here, Allowed, KeepsSound, Untouched, Allowed-Harmless, roll_back-Untouched,
}
use transfer_demo.Service.Money.{validate_account_id, validate_initial_balance}
use transfer_demo.Service.Money.Laws.{validate_initial_balance_iff}
use transfer_demo.Service.Transfers.Orderly.{Orderly-create}

module _ ⦃dec : Decimal⦄ (laws : DecimalLaws dec) (Rely : Database → Database → Type 0)
    (keeps : KeepsSound Rely) (id : ℤ) (balance : dec.Value) where
  module _ (start : Database) where
    -- A call that returned has opened the account once. A call that failed has opened nothing, or has
    -- opened the account and lost the reply to its commit.
    abbrev pub CreateOutcome : Done → Database → Type 0
    CreateOutcome (ok _) db =
        (mid : Database) × Drift Rely start mid × Opened id (dec.to_numeric balance) mid db
    CreateOutcome (err e) db =
        Drift Rely start db
        ⊎ ((mid : Database) × (f : Fault) × (e ≡ wrap "commit" (fault_error f))
            × Drift Rely start mid
            × Opened id (dec.to_numeric balance) mid db)

    abbrev Sound : Done → Database → Type 0
    Sound r db = CreateOutcome r db × IsSound db

    Opened-Sound :
        (db db' : Database)
        → Untouched Rely keeps start db
        → Opened id (dec.to_numeric balance) db db'
        → Sound (ok tt) db'
    Opened-Sound db db' (d, s) o = (
      (db, d, o),
      rw o.written (opened-IsSound id (dec.to_numeric balance) db s o.fresh o.nonneg),
    )

    ran-Sound :
        (r : Done) (db : Database)
        → Outcome
            (Untouched Rely keeps start)
            (λ _ db'. Sound (ok tt) db')
            (roll_back-Untouched Rely keeps start)
            r
            db
        → Sound r db
    ran-Sound (ok u) db o = o
    ran-Sound (err e) db (inl (d, s)) = (inl d, s)
    ran-Sound (err e) db (inr (u, f, ((mid, d, o), s), lost, final)) = (inr (mid, f, lost, d, o), s)

    checked-Sound :
        (i b : Option GoError)
        → validate_initial_balance balance ≡ b
        → (w : World) → All (Allowed Rely) w.events
        → Untouched Rely keeps start w.db
        → let (r, w') =
            (check i >>= λ _. check b >>= λ _. with_tx (Accounts.create tx id balance)) w in
          Sound r w'.db
    unfolding check ◌>>=◌
    checked-Sound (some e) b h w a (d, s) = (inl d, s)
    checked-Sound none (some e) h w a (d, s) = (inl d, s)
    checked-Sound none none h w a u =
        let scaled : IsScaled dec balance = ((validate_initial_balance_iff laws balance).0 h).0 in
        let fn : Action Unit = Accounts.create tx id balance in
        ran-Sound (with_tx fn w).0 (with_tx fn w).1.db (
          with_tx-Outcome (Untouched Rely keeps start) (λ _ db'. Sound (ok tt) db')
            (roll_back-Untouched Rely keeps start) fn (Orderly-create id balance)
            (λ db n.
              Ensures-imp fn (λ _ db' o. Opened-Sound db db' n o)
                (create-Ensures laws id balance db scaled))
            w (Allowed-Harmless Rely keeps start w.events a) u)

  module _ (w : World) (allowed : All (Allowed Rely) w.events) (sound : IsSound w.db) where
    create-Sound : Sound w.db (create id balance w).0 (create id balance w).1.db
    unfolding create
    create-Sound =
        checked-Sound w.db (validate_account_id id) (validate_initial_balance balance) refl w
          allowed (here, sound)

    -- Opening an account has its effect at most once, for every sequence of faults, retries and
    -- commits of other transactions that keep the data sound, from sound data. If it returns, then
    -- an account with a new id has been opened with its balance, and with one deposit of it if it
    -- is positive. If it returns an error, then nothing was opened, or it was opened once and the
    -- reply to the commit was lost.
    pub create_once : CreateOutcome w.db (create id balance w).0 (create id balance w).1.db
    create_once = create-Sound.0

    -- Opening an account keeps the stored data sound, whether it returns or fails, under the
    -- conditions of create_once.
    pub create-IsSound : IsSound (create id balance w).1.db
    create-IsSound = create-Sound.1
