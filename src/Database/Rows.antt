-- ===== src/Database/Rows.antt =====
-- The rows of the four tables, and the searches by key.

use transfer_demo.Prelude.{
  ℕ, Bool, true, false, ◌||◌, Option, none, some, List, [], ◌∷◌, String, ℤ, eq_ℤ, ◌==◌,
  if◌then◌else◌,
}

pub record AccountRow : Type 0 where
  pub id : ℤ
  pub balance : ℤ
  pub version : ℕ
  pub created_at : ℕ
  pub updated_at : ℕ

pub record DepositRow : Type 0 where
  pub id : ℕ
  pub account_id : ℤ
  pub amount : ℤ
  pub created_at : ℕ

-- A UUID is the number of 128 bits that its text stands for.
pub record TransferRow : Type 0 where
  pub id : ℕ
  pub idempotency_key : Option ℕ
  pub source_id : ℤ
  pub destination_id : ℤ
  pub amount : ℤ
  pub status : String
  pub created_at : ℕ

pub record LedgerRow : Type 0 where
  pub id : ℕ
  pub transfer_id : ℕ
  pub account_id : ℤ
  pub direction : String
  pub amount : ℤ
  pub balance_after : ℤ
  pub created_at : ℕ

-- The tables, the last value that each BIGSERIAL sequence has issued, and the clock of `now()`.
pub record Database : Type 0 where
  pub accounts : List AccountRow
  pub deposits : List DepositRow
  pub transfers : List TransferRow
  pub ledger_entries : List LedgerRow
  pub deposits_seq : ℕ
  pub transfers_seq : ℕ
  pub ledger_entries_seq : ℕ
  pub now : ℕ

abbrev pub empty : Database
empty = record {
  accounts = [];
  deposits = [];
  transfers = [];
  ledger_entries = [];
  deposits_seq = 0;
  transfers_seq = 0;
  ledger_entries_seq = 0;
  now = 0;
}

-- `WHERE id = $1` over accounts.
abbrev pub find_account : ℤ → List AccountRow → Option AccountRow
find_account id [] = none
find_account id (r ∷ rows) = if eq_ℤ r.id id then some r else find_account id rows

abbrev pub is_some {ℓ} : {A : Type ℓ} → Option A → Bool
is_some none = false
is_some (some _) = true

abbrev pub has_account : ℤ → List AccountRow → Bool
has_account id rows = is_some (find_account id rows)

abbrev pub has_key : ℕ → Option ℕ → Bool
has_key key none = false
has_key key (some k) = k == key

-- `WHERE idempotency_key = $1::uuid` over transfers; a NULL key equals none.
abbrev pub find_key : ℕ → List TransferRow → Option TransferRow
find_key key [] = none
find_key key (r ∷ rows) = if has_key key r.idempotency_key then some r else find_key key rows

-- The partial unique index on the key has no row for NULL.
abbrev pub key_taken : Option ℕ → List TransferRow → Bool
key_taken none rows = false
key_taken (some key) rows = is_some (find_key key rows)

abbrev pub has_transfer : ℕ → List TransferRow → Bool
has_transfer id [] = false
has_transfer id (r ∷ rows) = r.id == id || has_transfer id rows
