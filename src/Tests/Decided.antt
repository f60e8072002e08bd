-- ===== src/Tests/Decided.antt =====
-- The decision on a command above the source's balance.
use transfer_demo.Prelude.{◌≡◌, refl, pos, eq_ℤ, eq_ℤ_iff, arith, ◌-ℤ◌}
use transfer_demo.Domain.{sentinel, insufficient_funds}
use transfer_demo.Result.{err}
use transfer_demo.Action.Quiet.{carried_out, quietly}
use transfer_demo.Service.Money.{validate_account_id, validate_amount, check_range_and_scale}
use transfer_demo.Service.Transfers.{transfer, validate, first_error, check_key}
use transfer_demo.Service.Transfers.Decision.{decision}
use transfer_demo.Service.Transfers.Decision.Agreement.{AllFit, transfer-decision}
use transfer_demo.Tests.Externals.{fixed, fixed_laws, one_digit}
use transfer_demo.Tests.Runs.{two_accounts}
use transfer_demo.Tests.Refused.{short_of}
use transfer_demo.Tests.Witnesses.{opened-Sound}

pub two_accounts-AllFit : AllFit two_accounts
two_accounts-AllFit id r e = ground (arith, eq_ℤ_iff (pos 2) id, eq_ℤ_iff (pos 1) id)

transfer-decision_example :
    transfer short_of (quietly two_accounts) ≡ carried_out (decision short_of two_accounts)
transfer-decision_example =
    transfer-decision fixed_laws short_of two_accounts opened-Sound.unique two_accounts-AllFit

decided : decision short_of two_accounts ≡ (err (sentinel insufficient_funds), two_accounts)
unfolding decision validate validate_account_id validate_amount check_range_and_scale first_error
    check_key eq_ℤ ◌-ℤ◌
decided = refl
