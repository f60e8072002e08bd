-- ===== src/Service/Transfers/Progress.antt =====
-- Commands that can be carried out, when nobody interferes: transfer_service.go without faults.
use mathlib.Core.Option
use text.Mathlib.Text.{◌==◌}
use transfer_demo.Prelude.{
  ℕ, ◌+◌, ◌==◌ as nat_eq, ◌||◌, ◌≡◌, refl, ◌∙◌, Bool, true, false, Option, none, some, List, ℤ, pos,
  ◌+ℤ◌, ◌-ℤ◌, ◌≤ℤ◌, arith, int_laws,
}
use transfer_demo.Decimal.{Decimal, DecimalLaws, IsScaled}
use transfer_demo.Uuid.{UuidCodec}
use transfer_demo.Domain.{Transfer, status_completed}
use transfer_demo.Result.{ok}
use transfer_demo.Database.{
  Database, AccountRow, find_account, has_account, key_taken, find_key, is_some,
}
use transfer_demo.Database.Accounts.{IsUnique, find_account-set_balance}
use transfer_demo.Database.Statements.{set_balance}
use transfer_demo.Database.Effects.{with_new_balance}
use transfer_demo.Database.Progress.{Fits}
use transfer_demo.Action.{tx, World, ◌>>=◌}
use transfer_demo.Action.Quiet.{quietly, bind-eq-ok}
use transfer_demo.Repository.Accounts.Quiet.{update_balance-eq}
use transfer_demo.Repository.Transfers.{cast_key, find_by_idempotency_key}
use transfer_demo.Repository.Transfers.Quiet.{insert-eq, insert_ledger_entry-eq, find_free}
use transfer_demo.Service.Transfers.{
  TransferCmd, optional_key, execute, after_lookup, transfer_in_tx, transfer,
}
use transfer_demo.Service.Transfers.Effect.{moved, debited, credited}
use transfer_demo.Service.Transfers.Settled.{execute-settle}
use transfer_demo.Service.Transfers.Validation.{IsAcceptable, validate_iff}
use transfer_demo.Service.Transfers.Replay.{transfer-eq-ok}

pub has_account-set_balance :
    (id j balance : ℤ) (now : ℕ) (rows : List AccountRow)
    → has_account j rows ≡ true
    → has_account j (set_balance id balance now rows) ≡ true
has_account-set_balance id j balance now rows h =
    ground (arith, find_account-set_balance id j balance now rows)

module _ ⦃dec : Decimal⦄ ⦃uuid : UuidCodec⦄ where
  -- Both accounts exist, the source covers the amount, the destination can hold it, and the key, if
  -- there is one, is free.
  pub record IsExecutable (cmd : TransferCmd dec) (db : Database) : Type 0 where
    pub source : AccountRow
    pub destination : AccountRow
    pub key : Option ℕ
    pub source_found : find_account cmd.source_id db.accounts ≡ some source
    pub destination_found : find_account cmd.destination_id db.accounts ≡ some destination
    pub key_casts : cast_key uuid (optional_key cmd.idempotency_key) ≡ some key
    pub free : key_taken key db.transfers ≡ false
    pub covered : dec.to_numeric cmd.amount ≤ℤ source.balance
    pub source_fits : Fits (pos 0) source.balance
    pub destination_fits : Fits (pos 0) (destination.balance +ℤ dec.to_numeric cmd.amount)

  pub left_over : (b a : ℤ) → Fits (pos 0) b → Fits (pos 1) a → a ≤ℤ b → Fits (pos 0) (b -ℤ a)
  left_over b a h k c = omega int_laws

  pub present :
      (id : ℤ) (rows : List AccountRow) {r : AccountRow}
      → find_account id rows ≡ some r
      → has_account id rows ≡ true
  present id rows f = rw f refl

  newest : (n : ℕ) (b : Bool) → (nat_eq (n + 1) (n + 1) || b) ≡ true
  newest n b = ground arith

  pub unkeyed_transfer :
      (cmd : TransferCmd dec) (w : World)
      → (cmd.idempotency_key == "") ≡ true
      → transfer_in_tx cmd w ≡ execute tx cmd w
  unfolding transfer_in_tx
  unkeyed_transfer cmd w e = rw e refl

  pub keyed_transfer :
      (cmd : TransferCmd dec) (w : World)
      → (cmd.idempotency_key == "") ≡ false
      → transfer_in_tx cmd w
        ≡ (find_by_idempotency_key tx cmd.idempotency_key >>= after_lookup tx cmd) w
  unfolding transfer_in_tx
  keyed_transfer cmd w e = rw e refl

  pub not_some : {A : Type 0} (o : Option A) → is_some o ≡ false → o ≡ none
  not_some none e = refl
  not_some (some a) e = cc

  -- The transfer that a call returns on the database `db`.
  abbrev pub receipt : TransferCmd dec → Database → Transfer dec
  receipt cmd db = record {
    id = db.transfers_seq + 1;
    idempotency_key = optional_key cmd.idempotency_key;
    source_id = cmd.source_id;
    destination_id = cmd.destination_id;
    amount = cmd.amount;
    status = status_completed;
    created_at = 0;
  }

  module _ (laws : DecimalLaws dec) (cmd : TransferCmd dec) (db : Database)
      (acceptable : IsAcceptable cmd) (unique : IsUnique db.accounts)
      (can : IsExecutable cmd db) where
    execute-eq : execute tx cmd (quietly db) ≡ (
      ok (receipt cmd db),
      quietly (
          moved can.key cmd.source_id cmd.destination_id
            (dec.to_numeric cmd.amount)
            can.source.balance
            can.destination.balance
            db),
    )
    execute-eq =
        let s : ℤ = cmd.source_id in
        let d : ℤ = cmd.destination_id in
        let a : ℤ = dec.to_numeric cmd.amount in
        let rs : AccountRow = can.source in
        let rd : AccountRow = can.destination in
        let scaled : IsScaled dec cmd.amount = acceptable.storable.0 in
        let amount_fits : Fits (pos 1) a = (acceptable.storable.1, acceptable.storable.2) in
        let left = debited laws rs.balance cmd.amount scaled in
        let right = credited laws rd.balance cmd.amount scaled in
        let left_fits : Fits (pos 0)
            (dec.to_numeric (dec.sub (dec.of_numeric rs.balance) cmd.amount)) =
          rw left (left_over rs.balance a can.source_fits amount_fits can.covered) in
        let right_fits : Fits (pos 0)
            (dec.to_numeric (dec.add (dec.of_numeric rd.balance) cmd.amount)) =
          rw right can.destination_fits in
        let has_s : has_account s db.accounts ≡ true = present s db.accounts can.source_found in
        let has_d : has_account d db.accounts ≡ true =
          present d db.accounts can.destination_found in
        let x : dec.Value = dec.sub (dec.of_numeric rs.balance) cmd.amount in
        let y : dec.Value = dec.add (dec.of_numeric rd.balance) cmd.amount in
        let db₁ : Database = with_new_balance s (dec.to_numeric x) db in
        let has_s₁ = has_account-set_balance s s (dec.to_numeric x) db.now db.accounts has_s in
        let has_d₁ = has_account-set_balance s d (dec.to_numeric x) db.now db.accounts has_d in
        let has_s₂ = has_account-set_balance d s (dec.to_numeric y) db.now db₁.accounts has_s₁ in
        let has_d₂ = has_account-set_balance d d (dec.to_numeric y) db.now db₁.accounts has_d₁ in
        execute-settle laws cmd db scaled unique can.source_found can.destination_found can.covered
        ∙ bind-eq-ok _ _ (update_balance-eq s x db has_s left_fits)
        ∙ bind-eq-ok _ _ (update_balance-eq d y db₁ has_d₁ right_fits)
        ∙ bind-eq-ok _ _ (
            insert-eq _ can.key (with_new_balance d (dec.to_numeric y) db₁) can.key_casts
              amount_fits acceptable.differ can.free has_s₂ has_d₂)
        ∙ bind-eq-ok _ _
            (insert_ledger_entry-eq _ _ amount_fits left_fits (newest db.transfers_seq _) has_s₂)
        ∙ bind-eq-ok _ _
            (insert_ledger_entry-eq _ _ amount_fits right_fits (newest db.transfers_seq _) has_d₂)
        ∙ rw (left, right) refl

    free_key :
        (o : Option ℕ)
        → uuid.cast cmd.idempotency_key ≡ o
        → Option.map some o ≡ some can.key
        → (u : ℕ) × (uuid.cast cmd.idempotency_key ≡ some u) × (find_key u db.transfers ≡ none)
    free_key none c e = cc
    free_key (some u) c e =
        let same : can.key ≡ some u = cc in
        (u, c, not_some (find_key u db.transfers) (rw same at can.free))

    transfer_in_tx-eq :
        (b : Bool)
        → (cmd.idempotency_key == "") ≡ b
        → transfer_in_tx cmd (quietly db) ≡ (
          ok (receipt cmd db),
          quietly (
              moved can.key cmd.source_id cmd.destination_id
                (dec.to_numeric cmd.amount)
                can.source.balance
                can.destination.balance
                db),
        )
    unfolding transfer_in_tx after_lookup
    transfer_in_tx-eq true e = unkeyed_transfer cmd (quietly db) e ∙ execute-eq
    transfer_in_tx-eq false e =
        let (u, c, f) = free_key (uuid.cast cmd.idempotency_key) refl (rw e at can.key_casts) in
        keyed_transfer cmd (quietly db) e
        ∙ bind-eq-ok _ _ (find_free tx cmd.idempotency_key db c f)
        ∙ execute-eq

    pub transfer-succeeds : transfer cmd (quietly db) ≡ (
      ok (receipt cmd db),
      quietly (
          moved can.key cmd.source_id cmd.destination_id
            (dec.to_numeric cmd.amount)
            can.source.balance
            can.destination.balance
            db),
    )
    transfer-succeeds =
        transfer-eq-ok cmd db ((validate_iff laws cmd).1 acceptable)
          (transfer_in_tx-eq (cmd.idempotency_key == "") refl)
