-- ===== src/Concurrency/Bank.antt =====
-- The abstract view of the service: a balance for each account, on which operations act one after
-- another. It has no versions, logs, locks or rows.
pub mod View
pub mod Keys
use mathlib.Core.Option
use transfer_demo.Prelude.{
  ℕ, Bool, true, false, ◌&&◌, ◌||◌, Option, none, some, List, [], ◌∷◌, ◌++◌, ℤ, pos, eq_ℤ, ltb_ℤ,
  ◌+ℤ◌, ◌-ℤ◌, ◌==◌, if◌then◌else◌,
}
use transfer_demo.Decimal.{Decimal}
use transfer_demo.Database.{Database, AccountRow, TransferRow, find_account}
use transfer_demo.Uuid.{UuidCodec}
use transfer_demo.Repository.Transfers.{cast_key}
use transfer_demo.Service.Transfers.{TransferCmd, optional_key}

abbrev pub Bank : Type 0
Bank = ℤ → Option ℤ

abbrev pub set_at : ℤ → ℤ → Bank → Bank
set_at id balance bank j = if eq_ℤ id j then some balance else bank j

-- The command of the session `i` is carried out, or an account is opened.
pub data Operation : Type 0 where
  transferred : ℕ → Operation
  opened : ℤ → ℤ → Operation

-- Two accounts that differ and exist, and a positive amount that the source covers.
abbrev pub move_between : ℤ → ℤ → ℤ → Option ℤ → Option ℤ → Bank → Option Bank
move_between s d amount none y bank = none
move_between s d amount (some x) none bank = none
move_between s d amount (some x) (some y) bank =
    if eq_ℤ s d || ltb_ℤ amount (pos 1) || ltb_ℤ x amount
    then none
    else some (set_at d (y +ℤ amount) (set_at s (x -ℤ amount) bank))

abbrev pub open_at : ℤ → ℤ → Option ℤ → Bank → Option Bank
open_at id balance (some x) bank = none
open_at id balance none bank = if ltb_ℤ balance (pos 0) then none else some (set_at id balance bank)

-- Key, source, destination and amount of a transfer.
abbrev pub Entry : Type 0
Entry = Option ℕ × ℤ × ℤ × ℤ

abbrev pub or_null {ℓ} : {A : Type ℓ} → Option (Option A) → Option A
or_null none = none
or_null (some o) = o

module _ ⦃dec : Decimal⦄ (cmd : ℕ → TransferCmd dec) where
  abbrev pub apply : Operation → Bank → Option Bank
  apply (transferred i) bank =
      move_between (cmd i).source_id (cmd i).destination_id (dec.to_numeric (cmd i).amount)
        (bank (cmd i).source_id) (bank (cmd i).destination_id) bank
  apply (opened id balance) bank = open_at id balance (bank id) bank

  abbrev pub apply_to : Operation → Option Bank → Option Bank
  apply_to op none = none
  apply_to op (some bank) = apply op bank

  -- The operations one after another, the newest first in the list.
  abbrev pub serial : List Operation → Bank → Option Bank
  serial [] bank = some bank
  serial (op ∷ ops) bank = apply_to op (serial ops bank)

  module _ ⦃uuid : UuidCodec⦄ where
    -- The UUID that the command stands under, if it has a key.
    abbrev pub key_of : ℕ → Option ℕ
    key_of i = or_null (cast_key uuid (optional_key (cmd i).idempotency_key))

    -- Key, source, destination and amount of what the operations transfer, the newest first.
    abbrev pub transfers_by : List Operation → List Entry
    transfers_by [] = []
    transfers_by (transferred i ∷ ops) =
        (key_of i, (cmd i).source_id, (cmd i).destination_id, dec.to_numeric (cmd i).amount)
        ∷ transfers_by ops
    transfers_by (opened id balance ∷ ops) = transfers_by ops

abbrev pub has_session : ℕ → List Operation → Bool
has_session i [] = false
has_session i (transferred j ∷ ops) = j == i || has_session i ops
has_session i (opened id balance ∷ ops) = has_session i ops

-- What the tables show of the abstract state.
abbrev pub view : Database → Bank
view db id = Option.map (λ (r : AccountRow). r.balance) (find_account id db.accounts)

abbrev pub recorded : List TransferRow → List Entry
recorded [] = []
recorded (r ∷ rows) = (r.idempotency_key, r.source_id, r.destination_id, r.amount) ∷ recorded rows
