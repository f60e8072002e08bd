-- ===== src/Domain.antt =====
-- internal/domain: the entities.
mod Errors
unfoldable pub use Errors.*
use transfer_demo.Prelude.{ℕ, ℤ, String, Option}
use transfer_demo.Decimal.{Decimal}

-- `type Direction string`.
abbrev pub Direction : Type 0
Direction = String

abbrev pub direction_debit : Direction
direction_debit = "debit"

abbrev pub direction_credit : Direction
direction_credit = "credit"

abbrev pub status_completed : String
status_completed = "completed"

abbrev pub status_failed : String
status_failed = "failed"

-- `time.Time` is a number of ticks. Ids that the client supplies are signed; those that a BIGSERIAL
-- column issues are positive.
module _ (dec : Decimal) where
  pub record Account : Type 0 where
    pub id : ℤ
    pub balance : dec.Value
    pub version : ℕ
    pub created_at : ℕ
    pub updated_at : ℕ

  pub record Transfer : Type 0 where
    pub id : ℕ
    pub idempotency_key : Option String
    pub source_id : ℤ
    pub destination_id : ℤ
    pub amount : dec.Value
    pub status : String
    pub created_at : ℕ

  pub record LedgerEntry : Type 0 where
    pub id : ℕ
    pub transfer_id : ℕ
    pub account_id : ℤ
    pub direction : Direction
    pub amount : dec.Value
    pub balance_after : dec.Value
    pub created_at : ℕ
