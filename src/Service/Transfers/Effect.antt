-- ===== src/Service/Transfers/Effect.antt =====
-- What `execute` has done when it returns a transfer.
mod Defs
mod Balances
pub use Defs.*
pub use Balances.*
use mathlib.Core.Option
use transfer_demo.Prelude.{
  ℕ, ◌+◌, ◌≡◌, refl, ap, sym, ◌∙◌, Bool, true, false, Option, none, some, List, [], ◌∷◌, ℤ, pos,
  eq_ℤ, eq_ℤ_refl, ltb_ℤ, ◌+ℤ◌, ◌-ℤ◌, ◌≤ℤ◌, arith, if◌then◌else◌,
}
use transfer_demo.Decimal.{Decimal, DecimalLaws, IsScaled}
use transfer_demo.Uuid.{UuidCodec}
use transfer_demo.Domain.{
  sentinel, insufficient_funds, Transfer, Account, status_completed, direction_debit,
  direction_credit,
}
use transfer_demo.Database.{Database, AccountRow, find_account, key_taken}
use transfer_demo.Database.Accounts.{IsUnique, find_account-id}
use transfer_demo.Database.Statements.{member}
use transfer_demo.Database.Effects.{with_new_balance, with_transfer, with_ledger_entry}
use transfer_demo.Action.{tx}
use transfer_demo.Action.Ensures.{
  Ensures, Ensures-bind, Ensures-then, Ensures-pure, Ensures-check, Ensures-or_fail, Ensures-imp,
}
use transfer_demo.Repository.GoMap.{GoMap, lookup}
use transfer_demo.Repository.Accounts.{scan_account}
use transfer_demo.Repository.Accounts.Laws.{lock_for_update-Ensures, update_balance-Ensures}
use transfer_demo.Repository.Transfers.{cast_key}
use transfer_demo.Repository.Transfers.Laws.{Inserted, insert-Ensures, insert_ledger_entry-Ensures}
use transfer_demo.Service.Transfers.{TransferCmd, optional_key, execute, execute_locked}

module _ ⦃dec : Decimal⦄ ⦃uuid : UuidCodec⦄ where
  -- An account as the table has it, with a fact `E` about its id.
  abbrev pub ReadRow : (ℤ → Type 0) → Database → ℤ → Account dec → Type 0
  ReadRow E db j x =
      (r : AccountRow) × (find_account j db.accounts ≡ some r) × (x ≡ account_of j r) × E j

  read :
      (db : Database) {j : ℤ} {x : Account dec}
      → (r : AccountRow) × (find_account j db.accounts ≡ some r) × (x ≡ account_of j r)
      → ReadRow (λ _. Unit {0}) db j x
  read db (r, f, e) = (r, f, e, tt)

  module _ (laws : DecimalLaws dec) where
    pub execute_locked-Ensures :
        (E : ℤ → Type 0) (cmd : TransferCmd dec) (db : Database) (m : GoMap (Account dec))
        → IsScaled dec cmd.amount
        → ((x : Account dec) → lookup cmd.source_id m ≡ some x → ReadRow E db cmd.source_id x)
        → ((x : Account dec)
            → lookup cmd.destination_id m ≡ some x
            → ReadRow E db cmd.destination_id x)
        → Ensures
            (execute_locked tx cmd m)
            db
            (λ t db'. Moved cmd db t db' × E cmd.source_id × E cmd.destination_id)
    unfolding execute_locked
    execute_locked-Ensures E cmd db m scaled read_s read_d =
        let s : ℤ = cmd.source_id in
        let d : ℤ = cmd.destination_id in
        let a : ℤ = dec.to_numeric cmd.amount in
        Ensures-then {P = ReadRow E db s} _ _ (Ensures-or_fail _ _ (λ x e. (read_s x e, refl)))
          λ source (rs, fs, es, held_s). rw es (
            Ensures-then {P = ReadRow E db d} _ _ (Ensures-or_fail _ _ (λ x e. (read_d x e, refl)))
              λ dest (rd, fd, ed, held_d). rw ed (
                Ensures-then {P = λ _. dec.less_than (dec.of_numeric rs.balance) cmd.amount ≡ false}
                  _ _ (Ensures-check _ (λ e. (refuses_none _ e, refl)))
                  λ _ enough. Ensures-bind _ _ (update_balance-Ensures _ _ _) λ _ db₂ e₂.
                    rw
                      (e₂
                        ∙ ap (λ (b : ℤ). with_new_balance s b db)
                            (debited laws rs.balance cmd.amount scaled))
                      (Ensures-bind _ _ (update_balance-Ensures _ _ _) λ _ db₃ e₃.
                        rw
                          (e₃
                            ∙ ap
                                (λ (b : ℤ).
                                  with_new_balance d b (with_new_balance s (rs.balance -ℤ a) db))
                                (credited laws rd.balance cmd.amount scaled))
                          (Ensures-bind _ _ (insert-Ensures _ _) λ n db₄ inserted.
                            Ensures-bind _ _ (insert_ledger_entry-Ensures _ _) λ _ db₅ e₅.
                              Ensures-bind _ _ (insert_ledger_entry-Ensures _ _) λ _ db₆ e₆.
                                Ensures-pure _ (
                                  Moved-of_Inserted laws cmd db rs rd scaled fs fd enough n db₄ db₅
                                      db₆ inserted e₅ e₆,
                                  held_s,
                                  held_d,
                                )))))

    -- If execute returns a transfer, on unique account ids and an amount of at most 18 decimals,
    -- then both accounts exist, the ids differ, the amount is positive, the source covers it and
    -- the key is free; the database is the one before with the amount taken from the source and
    -- added to the destination, one transfer, one debit and one credit with the balances after; and
    -- the transfer that it returns has the next id.
    pub execute-Ensures :
        (cmd : TransferCmd dec) (db : Database)
        → IsScaled dec cmd.amount
        → IsUnique db.accounts
        → Ensures (execute tx cmd) db (Moved cmd db)
    unfolding execute
    execute-Ensures cmd db scaled unique =
        let s : ℤ = cmd.source_id in
        let d : ℤ = cmd.destination_id in
        Ensures-bind _ _
          (lock_for_update-Ensures (cmd.source_id ∷ cmd.destination_id ∷ []) db unique)
          λ m db₁ locked. rw locked.1 (
            Ensures-imp _ (λ t db' h. h.0)
              (execute_locked-Ensures (λ _. Unit {0}) cmd db m scaled
                (λ x e.
                  read db (found_row (s ∷ d ∷ []) s db.accounts (member_first s d) (locked.0 s) e))
                (λ x e.
                  read db
                    (found_row (s ∷ d ∷ []) d db.accounts (member_second s d) (locked.0 d) e))))
