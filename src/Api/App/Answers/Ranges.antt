-- ===== src/Api/App/Answers/Ranges.antt =====
-- The stored balances stay in the range of their column when the state machine answers.
use mathlib.Core.Option
use transfer_demo.Prelude.{
  ℕ, ◌^◌, ◌≡◌, refl, sym, ◌∙◌, if◌then◌else◌, true, false, Bool, Option, none, some, ℤ, pos, ◌+ℤ◌,
  ◌-ℤ◌, ltb_ℤ, leb_ℤ, eq_ℤ, arith,
}
use text.Mathlib.Text.{◌==◌}
use transfer_demo.Decimal.{Decimal, DecimalLaws}
use transfer_demo.Uuid.{UuidCodec}
use transfer_demo.Domain.{GoError}
use transfer_demo.Database.{Database, AccountRow, TransferRow, find_account, find_key}
use transfer_demo.Database.Accounts.{with_balance, find_account-set_balance}
use transfer_demo.Database.Effects.{with_new_balance}
use transfer_demo.Database.Progress.{Fits}
use transfer_demo.Repository.Transfers.{scan_transfer}
use transfer_demo.Service.Money.{validate_account_id, validate_initial_balance}
use transfer_demo.Service.Money.Laws.{validate_initial_balance_iff}
use transfer_demo.Service.Accounts.Effect.{opened}
use transfer_demo.Service.Accounts.Decision.{
  create_decision, with_id_checked, with_balance_checked, opening,
}
use transfer_demo.Service.Transfers.{TransferCmd, validate, matches_cmd}
use transfer_demo.Service.Transfers.Validation.{IsAcceptable, validate_iff}
use transfer_demo.Service.Transfers.Progress.{left_over}
use transfer_demo.Service.Transfers.Decision.{
  pay_if, between, execution, repetition, under, keyed, admitted, judged, decision,
}
use transfer_demo.Service.Transfers.Decision.Agreement.{AllFit, covers, held}
use transfer_demo.Api.Handlers.{command}
use transfer_demo.Api.App.{Call, create_account, get_account, post_transaction}
use transfer_demo.Api.App.Answers.{answer}

-- A row of an update is the new one or an old one.
renewed :
    (n : ℤ) (now : ℕ) (o : Option AccountRow) (b : Bool) (r : AccountRow)
    → (if b then Option.map (with_balance n now) o else o) ≡ some r
    → Fits (pos 0) n
    → ((r' : AccountRow) → o ≡ some r' → Fits (pos 0) r'.balance)
    → Fits (pos 0) r.balance
renewed n now none true r e fits all = cc
renewed n now (some old) true r e fits all = ground (arith, fits)
renewed n now o false r e fits all = all r e

with_new_balance-AllFit :
    (id n : ℤ) (db : Database) → Fits (pos 0) n → AllFit db → AllFit (with_new_balance id n db)
with_new_balance-AllFit id n db fits all j r e =
    renewed n db.now (find_account j db.accounts) (eq_ℤ id j) r
      (sym (find_account-set_balance id j n db.now db.accounts) ∙ e) fits (all j)

opened-AllFit : (id n : ℤ) (db : Database) → Fits (pos 0) n → AllFit db → AllFit (opened id n db)
opened-AllFit id n db fits all j r e = ground (arith, all j r)

module _ ⦃dec : Decimal⦄ where
  -- With its two validations: an opening balance that is accepted is in the range.
  create_decision-AllFit :
      (laws : DecimalLaws dec) (id : ℤ) (balance : dec.Value) (db : Database)
      → AllFit db
      → AllFit (create_decision id balance db).1
  unfolding create_decision
  create_decision-AllFit laws id balance db all = by_id (validate_account_id id)
    where
      by_row :
          (o : Option AccountRow)
          → validate_initial_balance balance ≡ none
          → AllFit (opening id balance db o).1
      by_row (some r) e = all
      by_row none e =
          let storable = (validate_initial_balance_iff laws balance).0 e in
          opened-AllFit id (dec.to_numeric balance) db (storable.1, storable.2) all

      by_balance :
          (o : Option GoError)
          → validate_initial_balance balance ≡ o
          → AllFit (with_balance_checked id balance db o).1
      by_balance (some e) h = all
      by_balance none h = by_row (find_account id db.accounts) h

      by_id : (o : Option GoError) → AllFit (with_id_checked id balance db o).1
      by_id (some e) = all
      by_id none = by_balance (validate_initial_balance balance) refl

module _ ⦃dec : Decimal⦄ ⦃uuid : UuidCodec⦄ (laws : DecimalLaws dec) (cmd : TransferCmd dec)
    (db : Database) (all : AllFit db) where
  module _ (acceptable : IsAcceptable cmd) where
    pay_if-AllFit :
        (key : Option ℕ) (source destination : AccountRow) (short beyond : Bool)
        → ltb_ℤ source.balance (dec.to_numeric cmd.amount) ≡ short
        → leb_ℤ (pos (10 ^ 38)) (destination.balance +ℤ dec.to_numeric cmd.amount) ≡ beyond
        → Fits (pos 0) source.balance
        → Fits (pos 0) destination.balance
        → AllFit (pay_if cmd db key source destination short beyond).1
    pay_if-AllFit key source destination true beyond e f p q = all
    pay_if-AllFit key source destination false true e f p q = all
    pay_if-AllFit key source destination false false e f p q =
        let a : ℤ = dec.to_numeric cmd.amount in
        let paid : Database = with_new_balance cmd.source_id (source.balance -ℤ a) db in
        let (scaled, least, most) = acceptable.storable in
        with_new_balance-AllFit cmd.destination_id (destination.balance +ℤ a) paid
          (held destination.balance a f q least)
          (with_new_balance-AllFit cmd.source_id (source.balance -ℤ a) db
            (left_over source.balance a p (least, most) (covers source.balance a e)) all)

    between-AllFit :
        (key : Option ℕ) (source destination : Option AccountRow)
        → find_account cmd.source_id db.accounts ≡ source
        → find_account cmd.destination_id db.accounts ≡ destination
        → AllFit (between cmd db key source destination).1
    between-AllFit key none destination e f = all
    between-AllFit key (some source) none e f = all
    between-AllFit key (some source) (some destination) e f =
        pay_if-AllFit key source destination (ltb_ℤ source.balance (dec.to_numeric cmd.amount))
          (leb_ℤ (pos (10 ^ 38)) (destination.balance +ℤ dec.to_numeric cmd.amount)) refl refl
          (all cmd.source_id source e) (all cmd.destination_id destination f)

    execution-AllFit : (key : Option ℕ) → AllFit (execution cmd db key).1
    execution-AllFit key =
        between-AllFit key (find_account cmd.source_id db.accounts)
          (find_account cmd.destination_id db.accounts) refl refl

    repetition-AllFit : (row : TransferRow) (same : Bool) → AllFit (repetition cmd db row same).1
    repetition-AllFit row true = all
    repetition-AllFit row false = all

    under-AllFit : (u : ℕ) (o : Option TransferRow) → AllFit (under cmd db u o).1
    under-AllFit u none = execution-AllFit (some u)
    under-AllFit u (some row) = repetition-AllFit row (matches_cmd (scan_transfer row) cmd)

    keyed-AllFit : (o : Option ℕ) → AllFit (keyed cmd db o).1
    keyed-AllFit none = all
    keyed-AllFit (some u) = under-AllFit u (find_key u db.transfers)

    admitted-AllFit : (b : Bool) → AllFit (admitted cmd db b).1
    admitted-AllFit true = execution-AllFit none
    admitted-AllFit false = keyed-AllFit (uuid.cast cmd.idempotency_key)

  judged-AllFit : (o : Option GoError) → validate cmd ≡ o → AllFit (judged cmd db o).1
  judged-AllFit (some e) h = all
  judged-AllFit none h = admitted-AllFit ((validate_iff laws cmd).0 h) (cmd.idempotency_key == "")

  decision-AllFit : AllFit (decision cmd db).1
  unfolding decision
  decision-AllFit = judged-AllFit (validate cmd) refl

module _ ⦃dec : Decimal⦄ ⦃uuid : UuidCodec⦄ (laws : DecimalLaws dec) where
  pub answer-AllFit : (call : Call) (db : Database) → AllFit db → AllFit (answer call db).1
  unfolding answer
  answer-AllFit (create_account none) db all = all
  answer-AllFit (create_account (some req)) db all =
      create_decision-AllFit laws req.account_id req.initial_balance db all
  answer-AllFit (get_account account_id) db all = all
  answer-AllFit (post_transaction none key) db all = all
  answer-AllFit (post_transaction (some req) key) db all =
      decision-AllFit laws (command req key) db all
