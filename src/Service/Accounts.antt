-- ===== src/Service/Accounts.antt =====
-- internal/service/account_service.go.
pub mod Effect
pub mod Outcome
pub mod Opening
pub mod Decision
use transfer_demo.Prelude.{Option, none, some, ℤ}
use transfer_demo.Decimal.{Decimal}
use transfer_demo.Domain.{Account}
use transfer_demo.Action.{pool, tx, Action, fail, check, ◌>>◌}
use transfer_demo.Repository.Tx.{with_tx}
use transfer_demo.Repository.Accounts
use transfer_demo.Service.Money.{validate_account_id, validate_initial_balance}

module _ ⦃dec : Decimal⦄ where
  unfoldable pub create : ℤ → dec.Value → Action Unit
  create id initial_balance = do
    check (validate_account_id id)
    check (validate_initial_balance initial_balance)
    with_tx (Accounts.create tx id initial_balance)

  unfoldable pub get : ℤ → Action (Account dec)
  get id = do check (validate_account_id id); Accounts.get pool id
