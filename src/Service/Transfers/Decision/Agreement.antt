-- ===== src/Service/Transfers/Decision/Agreement.antt =====
-- transfer_service.go against the decision on the command and the database.
use transfer_demo.Prelude.{
  ℕ, ◌^◌, ◌-◌, ◌≡◌, refl, ◌∙◌, ap, Bool, true, false, Option, none, some, ℤ, pos, ◌+ℤ◌, ◌≤ℤ◌, ltb_ℤ,
  leb_ℤ, arith, int_laws,
}
use text.Mathlib.Text.{◌==◌}
use transfer_demo.Decimal.{Decimal, DecimalLaws}
use transfer_demo.Uuid.{UuidCodec}
use transfer_demo.Domain.{GoError, errors_is}
use transfer_demo.Result.{Result, err}
use transfer_demo.Database.{Database, AccountRow, TransferRow, find_account, find_key, key_taken}
use transfer_demo.Database.Accounts.{IsUnique}
use transfer_demo.Database.Progress.{Fits}
use transfer_demo.Action.{World, check, tx}
use transfer_demo.Database.Statements.{violation}
use transfer_demo.Action.Quiet.{carried_out, quietly, check-eq-err, bind-eq-err, round_trip-quietly}
use transfer_demo.Repository.Transfers.{
  find_by_idempotency_key, select_by_key, with_cast, found, cast_key, scan_transfer,
}
use transfer_demo.Repository.Tx.{is_retryable}
use transfer_demo.Service.Transfers.Validation.{validate_iff, IsAcceptable}
use transfer_demo.Service.Transfers.Progress.{keyed_transfer, transfer-succeeds}
use transfer_demo.Service.Transfers.Replay.{transfer-eq-err, transfer-replay, transfer-conflict}
use transfer_demo.Service.Transfers.{TransferCmd, optional_key, validate, matches_cmd, transfer}
use transfer_demo.Service.Transfers.Refusals.{
  transfer-no_source, transfer-no_destination, transfer-short,
}
use transfer_demo.Service.Transfers.Overflow.{transfer-overflow}
use transfer_demo.Service.Transfers.Decision.{
  unreadable_key, pay_if, between, execution, repetition, under, keyed, admitted, judged, decision,
}

-- Every stored balance is one that NUMERIC(38, 18) holds and the CHECK constraint allows.
abbrev pub AllFit : Database → Type 0
AllFit db =
    (id : ℤ) (r : AccountRow) → find_account id db.accounts ≡ some r → Fits (pos 0) r.balance

pub covers : (b a : ℤ) → ltb_ℤ b a ≡ false → a ≤ℤ b
covers b a e = ground arith

reaches : (a b : ℤ) → leb_ℤ a b ≡ true → a ≤ℤ b
reaches a b e = ground arith

below : (n : ℤ) → leb_ℤ (pos (10 ^ 38)) n ≡ false → n ≤ℤ pos (10 ^ 38 - 1)
below n e = ground arith

pub held :
    (b a : ℤ)
    → leb_ℤ (pos (10 ^ 38)) (b +ℤ a) ≡ false
    → Fits (pos 0) b
    → pos 1 ≤ℤ a
    → Fits (pos 0) (b +ℤ a)
held b a e fits positive = (omega int_laws, below (b +ℤ a) e)

module _ ⦃dec : Decimal⦄ ⦃uuid : UuidCodec⦄ where
  module _ (laws : DecimalLaws dec) (cmd : TransferCmd dec) (db : Database)
      (acceptable : IsAcceptable cmd) (unique : IsUnique db.accounts) where
    module _ (key : Option ℕ) (casts : cast_key uuid (optional_key cmd.idempotency_key) ≡ some key)
        (free : key_taken key db.transfers ≡ false) where
      module _ (source destination : AccountRow)
          (source_found : find_account cmd.source_id db.accounts ≡ some source)
          (destination_found : find_account cmd.destination_id db.accounts ≡ some destination)
          (source_fits : Fits (pos 0) source.balance)
          (destination_fits : Fits (pos 0) destination.balance) where
        pay_if-eq :
            (short beyond : Bool)
            → ltb_ℤ source.balance (dec.to_numeric cmd.amount) ≡ short
            → leb_ℤ (pos (10 ^ 38)) (destination.balance +ℤ dec.to_numeric cmd.amount) ≡ beyond
            → transfer cmd (quietly db)
              ≡ carried_out (pay_if cmd db key source destination short beyond)
        pay_if-eq true beyond e f =
            transfer-short laws cmd db acceptable unique key casts free source source_found
              destination destination_found e
        pay_if-eq false true e f =
            transfer-overflow laws cmd db acceptable unique key casts free source destination
              source_found destination_found source_fits
              (covers source.balance (dec.to_numeric cmd.amount) e)
              (reaches (pos (10 ^ 38)) (destination.balance +ℤ dec.to_numeric cmd.amount) f)
        pay_if-eq false false e f = transfer-succeeds laws cmd db acceptable unique (record {
          source = source;
          destination = destination;
          key = key;
          source_found = source_found;
          destination_found = destination_found;
          key_casts = casts;
          free = free;
          covered = covers source.balance (dec.to_numeric cmd.amount) e;
          source_fits = source_fits;
          destination_fits =
              held destination.balance (dec.to_numeric cmd.amount) f destination_fits
                acceptable.storable.1;
        })

      between-eq :
          AllFit db
          → (source destination : Option AccountRow)
          → find_account cmd.source_id db.accounts ≡ source
          → find_account cmd.destination_id db.accounts ≡ destination
          → transfer cmd (quietly db) ≡ carried_out (between cmd db key source destination)
      between-eq fits none destination e f =
          transfer-no_source laws cmd db acceptable unique key casts free e
      between-eq fits (some source) none e f =
          transfer-no_destination laws cmd db acceptable unique key casts free source e f
      between-eq fits (some source) (some destination) e f =
          pay_if-eq source destination e f (fits cmd.source_id source e)
            (fits cmd.destination_id destination f)
            (ltb_ℤ source.balance (dec.to_numeric cmd.amount))
            (leb_ℤ (pos (10 ^ 38)) (destination.balance +ℤ dec.to_numeric cmd.amount)) refl refl

    unread :
        uuid.cast cmd.idempotency_key ≡ none
        → find_by_idempotency_key tx cmd.idempotency_key (quietly db)
          ≡ (err unreadable_key, quietly db)
    unfolding find_by_idempotency_key select_by_key with_cast errors_is
    unread none_read =
        ap (λ (p : Result TransferRow × World). let (x, w) = p in (found x, w))
          (round_trip-quietly tx (select_by_key cmd.idempotency_key) {db₁ = db}
            {r = violation "22P02" ""} (rw none_read refl))

    unreadable :
        (cmd.idempotency_key == "") ≡ false
        → uuid.cast cmd.idempotency_key ≡ none
        → transfer cmd (quietly db) ≡ (err unreadable_key, quietly db)
    unfolding errors_is is_retryable
    unreadable present none_read =
        transfer-eq-err cmd db ((validate_iff laws cmd).1 acceptable)
          (keyed_transfer cmd (quietly db) present ∙ bind-eq-err _ _ (unread none_read)) refl refl

    module _ (fits : AllFit db) where
      repetition-eq :
          (u : ℕ) (row : TransferRow) (same : Bool)
          → (cmd.idempotency_key == "") ≡ false
          → uuid.cast cmd.idempotency_key ≡ some u
          → find_key u db.transfers ≡ some row
          → matches_cmd (scan_transfer row) cmd ≡ same
          → transfer cmd (quietly db) ≡ carried_out (repetition cmd db row same)
      repetition-eq u row true present read e m =
          transfer-replay cmd db u row ((validate_iff laws cmd).1 acceptable) present read e m
      repetition-eq u row false present read e m =
          transfer-conflict cmd db u row ((validate_iff laws cmd).1 acceptable) present read e m

      execution-eq :
          (key : Option ℕ)
          → cast_key uuid (optional_key cmd.idempotency_key) ≡ some key
          → key_taken key db.transfers ≡ false
          → transfer cmd (quietly db) ≡ carried_out (execution cmd db key)
      execution-eq key casts free =
          between-eq key casts free fits (find_account cmd.source_id db.accounts)
            (find_account cmd.destination_id db.accounts) refl refl

      under-eq :
          (u : ℕ) (row : Option TransferRow)
          → (cmd.idempotency_key == "") ≡ false
          → uuid.cast cmd.idempotency_key ≡ some u
          → find_key u db.transfers ≡ row
          → transfer cmd (quietly db) ≡ carried_out (under cmd db u row)
      under-eq u none present read e = execution-eq (some u) (rw (present, read) refl) (rw e refl)
      under-eq u (some row) present read e =
          repetition-eq u row (matches_cmd (scan_transfer row) cmd) present read e refl

      keyed-eq :
          (key : Option ℕ)
          → (cmd.idempotency_key == "") ≡ false
          → uuid.cast cmd.idempotency_key ≡ key
          → transfer cmd (quietly db) ≡ carried_out (keyed cmd db key)
      keyed-eq none present read = unreadable present read
      keyed-eq (some u) present read = under-eq u (find_key u db.transfers) present read refl

      admitted-eq :
          (b : Bool)
          → (cmd.idempotency_key == "") ≡ b
          → transfer cmd (quietly db) ≡ carried_out (admitted cmd db b)
      admitted-eq true e = execution-eq none (rw e refl) refl
      admitted-eq false e = keyed-eq (uuid.cast cmd.idempotency_key) e refl

  module _ (laws : DecimalLaws dec) (cmd : TransferCmd dec) (db : Database)
      (unique : IsUnique db.accounts) (fits : AllFit db) where
    judged-eq :
        (o : Option GoError)
        → validate cmd ≡ o
        → transfer cmd (quietly db) ≡ carried_out (judged cmd db o)
    unfolding transfer
    judged-eq none e =
        admitted-eq laws cmd db ((validate_iff laws cmd).0 e) unique fits
          (cmd.idempotency_key == "") refl
    judged-eq (some x) e = bind-eq-err (check (validate cmd)) _ (check-eq-err (quietly db) e)

    -- If nobody interferes, Transfer gives exactly the decision on the command and the database: the
    -- error of the validation; under a key that is stored the transfer that it has, if the accounts
    -- and the amount agree, and ErrIdempotencyConflict if not; otherwise the error for a missing
    -- source, then for a missing destination, then for a balance that falls short or runs over, and
    -- if there is none the transfer with its effect. No error changes the database. The account ids
    -- are unique, and the stored balances are in the range of their column.
    pub transfer-decision : transfer cmd (quietly db) ≡ carried_out (decision cmd db)
    unfolding decision
    transfer-decision = judged-eq (validate cmd) refl
