-- ===== src/Service/Transfers/Validation.antt =====
-- Which commands pass validation, and in which order the errors come.
use transfer_demo.Prelude.{◌≡◌, ◌↔◌, true, false, none, pos, eq_ℤ, ◌≤ℤ◌, arith, if◌then◌else◌}
use text.Mathlib.Text.{◌==◌}
use transfer_demo.Decimal.{Decimal, DecimalLaws}
use transfer_demo.Uuid.{UuidCodec}
use transfer_demo.Service.Money.Laws.{IsStorable, validate_account_id_iff, validate_amount_iff}
use transfer_demo.Service.Transfers.{TransferCmd, validate}

module _ ⦃dec : Decimal⦄ ⦃uuid : UuidCodec⦄ where
  -- Two positive ids that differ, an amount that the column holds exactly, and no key or one that
  -- reads as a UUID.
  pub record IsAcceptable (cmd : TransferCmd dec) : Type 0 where
    pub source_positive : pos 1 ≤ℤ cmd.source_id
    pub destination_positive : pos 1 ≤ℤ cmd.destination_id
    pub differ : eq_ℤ cmd.source_id cmd.destination_id ≡ false
    pub storable : IsStorable (pos 1) cmd.amount
    pub key_valid :
        (if cmd.idempotency_key == "" then true else uuid.parses cmd.idempotency_key) ≡ true

  -- A command passes validation exactly when its ids are positive and differ, its amount is
  -- positive, below 10^20 and has at most 18 decimals, and its key is empty or parses as a UUID.
  pub validate_iff :
      (laws : DecimalLaws dec) (cmd : TransferCmd dec) → (validate cmd ≡ none) ↔ IsAcceptable cmd
  unfolding validate
  validate_iff laws cmd = (
    λ e. record {
      source_positive = (validate_account_id_iff cmd.source_id).0 (ground arith);
      destination_positive = (validate_account_id_iff cmd.destination_id).0 (ground arith);
      differ = ground arith;
      storable = (validate_amount_iff laws cmd.amount).0 (ground arith);
      key_valid = ground arith;
    },
    λ h. ground (
      arith,
      (validate_account_id_iff cmd.source_id).1 h.source_positive,
      (validate_account_id_iff cmd.destination_id).1 h.destination_positive,
      (validate_amount_iff laws cmd.amount).1 h.storable,
      h.key_valid,
      h.differ,
    ),
  )
