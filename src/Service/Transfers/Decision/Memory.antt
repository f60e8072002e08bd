-- ===== src/Service/Transfers/Decision/Memory.antt =====
-- What the reference decision remembers of the transfers under a key.
use text.Mathlib.Text.{◌==◌}
use transfer_demo.Prelude.{
  ℕ, ◌^◌, ◌≡◌, refl, ap, ◌∙◌, Bool, true, false, Option, none, some, pos, ◌+ℤ◌, ltb_ℤ, leb_ℤ, arith,
}
use transfer_demo.Decimal.{Decimal, DecimalLaws}
use transfer_demo.Uuid.{UuidCodec}
use transfer_demo.Domain.{GoError, Transfer}
use transfer_demo.Result.{Result, ok, err}
use transfer_demo.Database.{Database, AccountRow, TransferRow, find_account, find_key, key_taken}
use transfer_demo.Repository.Transfers.{scan_transfer}
use transfer_demo.Service.Transfers.{TransferCmd, validate, matches_cmd}
use transfer_demo.Service.Transfers.Validation.{IsAcceptable, validate_iff}
use transfer_demo.Service.Transfers.Retry.{row_of, row_of-matches, newest_key}
use transfer_demo.Service.Transfers.Decision.{
  pay_if, between, execution, repetition, under, keyed, admitted, judged, decision,
}

-- The transfer under a key stays.
abbrev pub KeepsKeys : Database → Database → Type 0
KeepsKeys db db' =
    (u : ℕ) (row : TransferRow)
    → find_key u db.transfers ≡ some row
    → find_key u db'.transfers ≡ some row

module _ ⦃dec : Decimal⦄ ⦃uuid : UuidCodec⦄ (cmd : TransferCmd dec) (db : Database) where
  module _ (key : Option ℕ) (free : key_taken key db.transfers ≡ false) where
    pay_if-KeepsKeys :
        (source destination : AccountRow) (short beyond : Bool)
        → KeepsKeys db (pay_if cmd db key source destination short beyond).1
    pay_if-KeepsKeys source destination true beyond u row e = e
    pay_if-KeepsKeys source destination false true u row e = e
    pay_if-KeepsKeys source destination false false u row e = ground (arith, free, e)

    between-KeepsKeys :
        (source destination : Option AccountRow)
        → KeepsKeys db (between cmd db key source destination).1
    between-KeepsKeys none destination u row e = e
    between-KeepsKeys (some source) none u row e = e
    between-KeepsKeys (some source) (some destination) u row e =
        pay_if-KeepsKeys source destination (ltb_ℤ source.balance (dec.to_numeric cmd.amount))
          (leb_ℤ (pos (10 ^ 38)) (destination.balance +ℤ dec.to_numeric cmd.amount)) u row e

    execution-KeepsKeys : KeepsKeys db (execution cmd db key).1
    execution-KeepsKeys =
        between-KeepsKeys (find_account cmd.source_id db.accounts)
          (find_account cmd.destination_id db.accounts)

  repetition-KeepsKeys :
      (row : TransferRow) (same : Bool) → KeepsKeys db (repetition cmd db row same).1
  repetition-KeepsKeys row true u r e = e
  repetition-KeepsKeys row false u r e = e

  under-KeepsKeys :
      (u : ℕ) (o : Option TransferRow)
      → find_key u db.transfers ≡ o
      → KeepsKeys db (under cmd db u o).1
  under-KeepsKeys u none e = execution-KeepsKeys (some u) (rw e refl)
  under-KeepsKeys u (some row) e = repetition-KeepsKeys row (matches_cmd (scan_transfer row) cmd)

  keyed-KeepsKeys : (o : Option ℕ) → KeepsKeys db (keyed cmd db o).1
  keyed-KeepsKeys none u row e = e
  keyed-KeepsKeys (some v) u row e = under-KeepsKeys v (find_key v db.transfers) refl u row e

  admitted-KeepsKeys : (b : Bool) → KeepsKeys db (admitted cmd db b).1
  admitted-KeepsKeys true = execution-KeepsKeys none refl
  admitted-KeepsKeys false = keyed-KeepsKeys (uuid.cast cmd.idempotency_key)

  judged-KeepsKeys : (o : Option GoError) → KeepsKeys db (judged cmd db o).1
  judged-KeepsKeys (some e) u row h = h
  judged-KeepsKeys none u row h = admitted-KeepsKeys (cmd.idempotency_key == "") u row h

  pub decision-KeepsKeys : KeepsKeys db (decision cmd db).1
  unfolding decision
  decision-KeepsKeys = judged-KeepsKeys (validate cmd)

module _ ⦃dec : Decimal⦄ ⦃uuid : UuidCodec⦄ (laws : DecimalLaws dec) (cmd : TransferCmd dec)
    (u : ℕ) where
  -- A transfer of the command is stored under the key, with this id and status.
  abbrev pub Stored : Transfer dec → Database → Type 0
  Stored t db =
      (row : TransferRow) × (find_key u db.transfers ≡ some row)
      × (matches_cmd (scan_transfer row) cmd ≡ true)
      × (row.id ≡ t.id)
      × (row.status ≡ t.status)

  -- Of an error it says nothing.
  abbrev pub Remembered : Result (Transfer dec) × Database → Type 0
  Remembered (ok t, db) = IsAcceptable cmd × Stored t db
  Remembered (err e, db) = Unit

  module _ (db : Database) (acceptable : IsAcceptable cmd) where
    pay_if-Remembered :
        (source destination : AccountRow) (short beyond : Bool)
        → Remembered (pay_if cmd db (some u) source destination short beyond)
    pay_if-Remembered source destination true beyond = tt
    pay_if-Remembered source destination false true = tt
    pay_if-Remembered source destination false false = (
      acceptable,
      (
        row_of laws cmd u db,
        newest_key laws cmd u db,
        row_of-matches laws cmd u db acceptable.storable.0,
        refl,
        refl,
      ),
    )

    between-Remembered :
        (source destination : Option AccountRow)
        → Remembered (between cmd db (some u) source destination)
    between-Remembered none destination = tt
    between-Remembered (some source) none = tt
    between-Remembered (some source) (some destination) =
        pay_if-Remembered source destination (ltb_ℤ source.balance (dec.to_numeric cmd.amount))
          (leb_ℤ (pos (10 ^ 38)) (destination.balance +ℤ dec.to_numeric cmd.amount))

    repetition-Remembered :
        (row : TransferRow) (same : Bool)
        → find_key u db.transfers ≡ some row
        → matches_cmd (scan_transfer row) cmd ≡ same
        → Remembered (repetition cmd db row same)
    repetition-Remembered row true e m = (acceptable, (row, e, m, refl, refl))
    repetition-Remembered row false e m = tt

    under-Remembered :
        (o : Option TransferRow) → find_key u db.transfers ≡ o → Remembered (under cmd db u o)
    under-Remembered none e =
        between-Remembered (find_account cmd.source_id db.accounts)
          (find_account cmd.destination_id db.accounts)
    under-Remembered (some row) e =
        repetition-Remembered row (matches_cmd (scan_transfer row) cmd) e refl

  module _ (keyed : (cmd.idempotency_key == "") ≡ false)
      (casts : uuid.cast cmd.idempotency_key ≡ some u) where
    -- Past its validation.
    remembers : (db : Database) → judged cmd db none ≡ under cmd db u (find_key u db.transfers)
    remembers db = rw (keyed, casts) refl

    judged-Remembered :
        (db : Database) (o : Option GoError) → validate cmd ≡ o → Remembered (judged cmd db o)
    judged-Remembered db (some e) h = tt
    judged-Remembered db none h =
        rw (remembers db)
          (under-Remembered db ((validate_iff laws cmd).0 h) (find_key u db.transfers) refl)

    pub decision-Remembered : (db : Database) → Remembered (decision cmd db)
    unfolding decision
    decision-Remembered db = judged-Remembered db (validate cmd) refl

    -- The command again, whenever a transfer of it is stored.
    pub decision-again :
        (db : Database) (t : Transfer dec)
        → IsAcceptable cmd
        → (stored : Stored t db) → decision cmd db ≡ (ok (scan_transfer stored.0), db)
    unfolding decision
    decision-again db t acceptable (row, e, m, i, s) =
        ap (judged cmd db) ((validate_iff laws cmd).1 acceptable)
        ∙ remembers db
        ∙ ap (under cmd db u) e
        ∙ ap (repetition cmd db row) m
