-- ===== src/Service/Transfers/Effect/Balances.antt =====
-- What execute reads of the accounts and computes from them, in units.
use mathlib.Core.Option
use transfer_demo.Prelude.{
  ℕ, ◌≡◌, refl, ap, sym, ◌∙◌, Bool, true, false, Option, none, some, List, [], ◌∷◌, ℤ, eq_ℤ_refl,
  ltb_ℤ, ◌+ℤ◌, ◌-ℤ◌, ◌≤ℤ◌, arith, if◌then◌else◌,
}
use transfer_demo.Decimal.{Decimal, DecimalLaws, IsScaled}
use transfer_demo.Uuid.{UuidCodec}
use transfer_demo.Domain.{
  sentinel, insufficient_funds, Transfer, Account, status_completed, direction_debit,
  direction_credit,
}
use transfer_demo.Database.{Database, AccountRow, find_account}
use transfer_demo.Database.Accounts.{find_account-id}
use transfer_demo.Database.Statements.{member}
use transfer_demo.Database.Effects.{with_new_balance, with_ledger_entry}
use transfer_demo.Repository.Accounts.{scan_account}
use transfer_demo.Repository.Transfers.Laws.{Inserted}
use transfer_demo.Service.Transfers.{TransferCmd, optional_key}
use transfer_demo.Service.Transfers.Effect.Defs.{Moved}

module _ ⦃dec : Decimal⦄ ⦃uuid : UuidCodec⦄ where
  -- The account that the lock has read, under the id that was asked for.
  abbrev pub account_of : ℤ → AccountRow → Account dec
  account_of id r = record (scan_account r) { id = id }

  pub scanned :
      (id : ℤ) (rows : List AccountRow) (o : Option AccountRow) {a : Account dec}
      → o ≡ find_account id rows
      → Option.map scan_account o ≡ some a
      → (r : AccountRow) × (find_account id rows ≡ some r) × (a ≡ account_of id r)
  scanned id rows none f e = cc
  scanned id rows (some r) {a} f e =
      let same : a ≡ scan_account r = cc in
      (r, sym f, same ∙ ap (λ (i : ℤ). account_of i r) (find_account-id id rows (sym f)))

  pub found_row :
      (ids : List ℤ) (id : ℤ) (rows : List AccountRow) {o : Option (Account dec)} {a : Account dec}
      → member id ids ≡ true
      → o ≡ Option.map scan_account (if member id ids then find_account id rows else none)
      → o ≡ some a
      → (r : AccountRow) × (find_account id rows ≡ some r) × (a ≡ account_of id r)
  found_row ids id rows m e f = scanned id rows (find_account id rows) refl (rw m at (sym e ∙ f))

  pub member_first : (s d : ℤ) → member s (s ∷ d ∷ []) ≡ true
  unfolding member
  member_first s d = ground (arith, eq_ℤ_refl s)

  pub member_second : (s d : ℤ) → member d (s ∷ d ∷ []) ≡ true
  unfolding member
  member_second s d = ground (arith, eq_ℤ_refl d)

  pub refuses_none :
      (b : Bool) → (if b then some (sentinel insufficient_funds) else none) ≡ none → b ≡ false
  refuses_none true e = cc
  refuses_none false e = refl

  module _ (laws : DecimalLaws dec) where
    pub debited :
        (b : ℤ) (amount : dec.Value)
        → IsScaled dec amount
        → dec.to_numeric (dec.sub (dec.of_numeric b) amount) ≡ b -ℤ dec.to_numeric amount
    debited b amount h =
        laws.sub-units (dec.of_numeric b) amount (laws.of_numeric-scaled b) h
        ∙ ap (λ (x : ℤ). x -ℤ dec.to_numeric amount) (laws.of_numeric-units b)

    pub credited :
        (b : ℤ) (amount : dec.Value)
        → IsScaled dec amount
        → dec.to_numeric (dec.add (dec.of_numeric b) amount) ≡ b +ℤ dec.to_numeric amount
    credited b amount h =
        laws.add-units (dec.of_numeric b) amount (laws.of_numeric-scaled b) h
        ∙ ap (λ (x : ℤ). x +ℤ dec.to_numeric amount) (laws.of_numeric-units b)

    pub less_than-balance :
        (b : ℤ) (amount : dec.Value)
        → IsScaled dec amount
        → dec.less_than (dec.of_numeric b) amount ≡ ltb_ℤ b (dec.to_numeric amount)
    less_than-balance b amount h =
        laws.less_than-units (dec.of_numeric b) amount (laws.of_numeric-scaled b) h
        ∙ ap (λ (x : ℤ). ltb_ℤ x (dec.to_numeric amount)) (laws.of_numeric-units b)

    pub covers : (b a : ℤ) → ltb_ℤ b a ≡ false → a ≤ℤ b
    covers b a h = ground arith

    -- What is inserted into transfers.
    abbrev pub pending : TransferCmd dec → Transfer dec
    pending cmd = record {
      id = 0;
      idempotency_key = optional_key cmd.idempotency_key;
      source_id = cmd.source_id;
      destination_id = cmd.destination_id;
      amount = cmd.amount;
      status = status_completed;
      created_at = 0;
    }

    pub Moved-of_Inserted :
        (cmd : TransferCmd dec) (db : Database) (rs rd : AccountRow)
        → IsScaled dec cmd.amount
        → find_account cmd.source_id db.accounts ≡ some rs
        → find_account cmd.destination_id db.accounts ≡ some rd
        → dec.less_than (dec.of_numeric rs.balance) cmd.amount ≡ false
        → (n : ℕ) (db₄ db₅ db₆ : Database)
        → Inserted
            (pending cmd)
            (with_new_balance cmd.destination_id
              (rd.balance +ℤ dec.to_numeric cmd.amount)
              (with_new_balance cmd.source_id (rs.balance -ℤ dec.to_numeric cmd.amount) db))
            n
            db₄
        → db₅
          ≡ with_ledger_entry n cmd.source_id direction_debit
              (dec.to_numeric cmd.amount)
              (dec.to_numeric (dec.sub (dec.of_numeric rs.balance) cmd.amount))
              db₄
        → db₆
          ≡ with_ledger_entry n cmd.destination_id direction_credit
              (dec.to_numeric cmd.amount)
              (dec.to_numeric (dec.add (dec.of_numeric rd.balance) cmd.amount))
              db₅
        → Moved cmd db (record (pending cmd) { id = n }) db₆
    Moved-of_Inserted cmd db rs rd scaled fs fd enough n db₄ db₅ db₆ inserted e₅ e₆ =
        let a : ℤ = dec.to_numeric cmd.amount in
        record {
          source = rs;
          destination = rd;
          key = inserted.key;
          source_found = fs;
          destination_found = fd;
          key_casts = inserted.key_casts;
          differ = inserted.differ;
          positive = inserted.positive;
          covered =
              covers rs.balance a (sym (less_than-balance rs.balance cmd.amount scaled) ∙ enough);
          free = inserted.free;
          written = rw (
            e₆,
            e₅,
            inserted.written,
            inserted.fresh,
            debited rs.balance cmd.amount scaled,
            credited rd.balance cmd.amount scaled,
          );
          returned = ap (λ (i : ℕ). record (pending cmd) { id = i }) inserted.fresh;
        }
