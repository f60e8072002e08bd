-- ===== src/Service/Transfers/Outcome.antt =====
-- The outcomes of Transfer and of Create, however the round trips go and whatever other
-- transactions commit between them.
use mathlib.Core.Option
use transfer_demo.Prelude.{
  Bool-cases, ℕ, ◌≡◌, refl, ap, ◌∙◌, ◌⊎◌, inl, inr, false, Option, none, some,
}
use transfer_demo.Decimal.{Decimal, DecimalLaws}
use transfer_demo.Uuid.{UuidCodec}
use transfer_demo.Domain.{GoError, wrap, Transfer, errors_is, duplicate_idempotency_key}
use transfer_demo.Result.{Result, ok, err}
use transfer_demo.Database.{Database, TransferRow, find_key}
use transfer_demo.Action.{
  pool, server, driver, fault_error, Fault, World, Action, check, this_event, ◌>>=◌,
}
use transfer_demo.Action.Ensures.{Holds, Ensures-imp}
use transfer_demo.Action.Orderly.{All, All-this, All-suffix}
use transfer_demo.Repository.Tx.{with_tx}
use transfer_demo.Repository.Tx.Outcome.{Harmless, Outcome, with_tx-Outcome, with_tx-Suffix}
use transfer_demo.Repository.Transfers.{scan_transfer, find_by_idempotency_key}
use transfer_demo.Repository.Transfers.Laws.{LookedUp, find_on_pool}
use transfer_demo.Service.Transfers.{
  TransferCmd, replay, or_duplicate, validate, transfer_in_tx, resolve_duplicate, lost_race,
  transfer,
}
use transfer_demo.Service.Transfers.Effect.{Moved}
use transfer_demo.Service.Transfers.Orderly.{Orderly-transfer_in_tx}
use transfer_demo.Service.Transfers.Served.{
  Replayed, Served, transfer_in_tx-Ensures, replay-Replayed,
}
use transfer_demo.Service.Transfers.Validation.{IsAcceptable, validate_iff}
use transfer_demo.Service.Drift.{
  Drift, here, Allowed, KeepsSound, Untouched, Allowed-Harmless, roll_back-Untouched,
}
use transfer_demo.Audit.Soundness.{IsSound}
use transfer_demo.Audit.Soundness.Moves.{moved-IsSound}

commit_fault :
    (f : Fault) → errors_is (wrap "commit" (fault_error f)) duplicate_idempotency_key ≡ false
unfolding errors_is
commit_fault (server e) = refl
commit_fault (driver m) = refl

module _ ⦃dec : Decimal⦄ ⦃uuid : UuidCodec⦄ (laws : DecimalLaws dec) where
  pub Moved-IsSound :
      (cmd : TransferCmd dec) (db db' : Database) (t : Transfer dec)
      → IsSound db
      → Moved cmd db t db'
      → IsSound db'
  Moved-IsSound cmd db db' t h m = rw m.written (
      moved-IsSound m.key cmd.source_id cmd.destination_id (dec.to_numeric cmd.amount) m.source
        m.destination db h m.source_found m.destination_found m.differ m.covered m.positive m.free)

  module _ (Rely : Database → Database → Type 0) (keeps : KeepsSound Rely) (start : Database)
      (cmd : TransferCmd dec) where
    -- A call that returned `t` has moved the money once, or has found `t` under the key. A call that
    -- failed has left the data alone, or has moved the money once and lost the reply to its commit.
    abbrev pub TransferOutcome : Result (Transfer dec) → Database → Type 0
    TransferOutcome (ok t) db =
        ((mid : Database) × Drift Rely start mid × Moved cmd mid t db)
        ⊎ (Drift Rely start db × Replayed cmd db t)
    TransferOutcome (err e) db =
        Drift Rely start db
        ⊎ ((mid : Database) × (t : Transfer dec) × (f : Fault) × (e ≡ wrap "commit" (fault_error f))
            × Drift Rely start mid
            × Moved cmd mid t db)

    abbrev Sound : Result (Transfer dec) → Database → Type 0
    Sound r db = TransferOutcome r db × IsSound db

    -- After the transaction, before a lost race is resolved.
    abbrev Ran : Transfer dec → Database → Type 0
    Ran t db = TransferOutcome (ok t) db × IsSound db

    Ran-of_Served :
        (db db' : Database) (t : Transfer dec)
        → Untouched Rely keeps start db
        → Served cmd db t db'
        → Ran t db'
    Ran-of_Served db db' t (d, s) (inl m) = (inl (db, d, m), Moved-IsSound cmd db db' t s m)
    Ran-of_Served db db' t (d, s) (inr (r, e)) = rw e (inr (d, r), s)

    resolved_reply :
        (r : Result (Transfer dec)) (db : Database)
        → Untouched Rely keeps start db
        → Holds (λ t db'. Replayed cmd db' t) r db
        → Sound r db
    resolved_reply (ok t) db (d, s) h = (inr (d, h), s)
    resolved_reply (err e) db (d, s) h = (inl d, s)

    resolved_row :
        (key : ℕ) (row : Option TransferRow) (db : Database)
        → Untouched Rely keeps start db
        → uuid.cast cmd.idempotency_key ≡ some key
        → find_key key db.transfers ≡ row
        → Sound (or_duplicate cmd (Option.map scan_transfer row)) db
    unfolding or_duplicate
    resolved_row key none db (d, s) c f = (inl d, s)
    resolved_row key (some r) db u c f =
        resolved_reply (replay cmd (scan_transfer r)) db u (replay-Replayed cmd db key r c f)

    continue_resolve :
        (r : Result (Option (Transfer dec))) (w : World) (db : Database)
        → Untouched Rely keeps start db
        → Holds (LookedUp cmd.idempotency_key db) r w.db
        → w.db ≡ db
        → let (r', w') = elim r as (λ _. Result (Transfer dec) × World) [
          | ok o ↦ (or_duplicate cmd o, w)
          | err e ↦ (err e, w)
        ] in
          Sound r' w'.db
    continue_resolve (ok o) w db u (key, casts, e, _) same =
        rw (same, e) (resolved_row key (find_key key db.transfers) db u casts refl)
    continue_resolve (err e) w db (d, s) l same = rw same (inl d, s)

    resolve_duplicate-Sound :
        (w : World)
        → All (Allowed Rely) w.events
        → Untouched Rely keeps start w.db
        → Sound (resolve_duplicate cmd w).0 (resolve_duplicate cmd w).1.db
    unfolding resolve_duplicate ◌>>=◌
    resolve_duplicate-Sound w h u =
        let db₁ : Database = (this_event w.events).others w.db in
        let harmless = Allowed-Harmless Rely keeps start w.events h in
        let u₁ : Untouched Rely keeps start db₁ =
          (All-this (Harmless (Untouched Rely keeps start)) w.events (λ db m. m, tt) harmless).0
            w.db u in
        let found = find_on_pool cmd.idempotency_key w in
        let p = find_by_idempotency_key pool cmd.idempotency_key w in
        continue_resolve p.0 p.1 db₁ u₁ found.0 found.1

    -- The reply to a commit that has landed is lost: the call fails with the effect done.
    lost_reply :
        (t : Transfer dec) (e : GoError) (db : Database) (f : Fault)
        → e ≡ wrap "commit" (fault_error f)
        → Ran t db
        → Sound (err e) db
    lost_reply t e db f lost (inl (mid, d, m), s) = (inr (mid, t, f, lost, d, m), s)
    lost_reply t e db f lost (inr (d, r), s) = (inl d, s)

    lost_race-Sound :
        (r : Result (Transfer dec)) (w : World)
        → All (Allowed Rely) w.events
        → Outcome (Untouched Rely keeps start) Ran (roll_back-Untouched Rely keeps start) r w.db
        → Sound (lost_race cmd r w).0 (lost_race cmd r w).1.db
    unfolding lost_race
    lost_race-Sound (ok t) w h o = o
    lost_race-Sound (err e) w h (inl (d, s)) =
        elim (Bool-cases (errors_is e duplicate_idempotency_key)) [
          | inl dup ↦ rw dup (resolve_duplicate-Sound w h (d, s))
          | inr other ↦ rw other (inl d, s)
        ]
    lost_race-Sound (err e) w h (inr (t, f, y, lost, final)) =
        rw (ap (λ (x : GoError). errors_is x duplicate_idempotency_key) lost ∙ commit_fault f)
          (lost_reply t e w.db f lost y)

    ran-Sound :
        IsAcceptable cmd
        → (w : World) → All (Allowed Rely) w.events
        → Untouched Rely keeps start w.db
        → let (r, w') = with_tx (transfer_in_tx cmd) w in
          let (r', w'') = lost_race cmd r w' in Sound r' w''.db
    ran-Sound ok_cmd w h u =
        let fn : Action (Transfer dec) = transfer_in_tx cmd in
        lost_race-Sound (with_tx fn w).0 (with_tx fn w).1
          (All-suffix (Allowed Rely) (with_tx-Suffix fn (Orderly-transfer_in_tx cmd) w) h)
          (with_tx-Outcome (Untouched Rely keeps start) Ran (roll_back-Untouched Rely keeps start)
            fn (Orderly-transfer_in_tx cmd)
            (λ db n.
              Ensures-imp fn (λ t db' served. Ran-of_Served db db' t n served)
                (transfer_in_tx-Ensures laws cmd db ok_cmd.storable.0 n.1.unique))
            w (Allowed-Harmless Rely keeps start w.events h) u)

    checked-Sound :
        (o : Option GoError)
        → validate cmd ≡ o
        → (w : World) → All (Allowed Rely) w.events
        → Untouched Rely keeps start w.db
        → let (r, w') =
            (check o >>= λ _ w. let (r, w') = with_tx (transfer_in_tx cmd) w in lost_race cmd r w')
              w in
          Sound r w'.db
    unfolding check ◌>>=◌
    checked-Sound none e w h u = ran-Sound ((validate_iff laws cmd).0 e) w h u
    checked-Sound (some x) e w h (d, s) = (inl d, s)

  module _ (Rely : Database → Database → Type 0) (keeps : KeepsSound Rely) (cmd : TransferCmd dec)
      (w : World) (allowed : All (Allowed Rely) w.events) (sound : IsSound w.db) where
    transfer-Sound : Sound Rely keeps w.db cmd (transfer cmd w).0 (transfer cmd w).1.db
    unfolding transfer
    transfer-Sound = checked-Sound Rely keeps w.db cmd (validate cmd) refl w allowed (here, sound)

    -- Transfer has its effect at most once, for every sequence of faults, retries and commits of
    -- other transactions, where those commits keep the data sound, the data are sound at first and
    -- a commit that reports a deadlock or a serialization failure has not landed. If it returns a
    -- transfer, then its amount has moved once under a free key, or the transfer stands in the
    -- table under the key with the same accounts and amount and nothing has moved. If it returns an
    -- error, then nothing has moved, or the error is that of a commit whose reply was lost and the
    -- amount has moved once.
    pub transfer_once : TransferOutcome Rely keeps w.db cmd (transfer cmd w).0 (transfer cmd w).1.db
    transfer_once = transfer-Sound.0

    -- Transfer keeps the stored data sound, whether it returns or fails, for every sequence of
    -- faults, retries and commits of other transactions, under the conditions of transfer_once: no
    -- balance is negative, of every account the balance and the debits are its deposits and
    -- credits, the balances sum up to the deposits, the debits to the credits, no key and no id
    -- stands twice, and every transfer has its debit and its credit and no other entry.
    pub transfer-IsSound : IsSound (transfer cmd w).1.db
    transfer-IsSound = transfer-Sound.1
