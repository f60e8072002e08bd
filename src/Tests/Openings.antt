-- ===== src/Tests/Openings.antt =====
-- Opening and reading accounts next to the two of the other tests.
use transfer_demo.Database.{Database, AccountRow, empty}
use transfer_demo.Database.Accounts.{IsUnique}
use transfer_demo.Service.Accounts.Effect as Effect
use transfer_demo.Prelude.{◌^◌, ◌-◌, refl, pos, eq_ℤ, arith}
use transfer_demo.Service.Money.Laws.{IsStorable}
use transfer_demo.Tests.Externals.{fixed, one_digit, units}

pub seven-IsStorable : IsStorable (pos 0) (units (pos 7))
seven-IsStorable = (omega arith, omega arith, omega arith)

-- The second account holds as much as its column can.
abbrev full : Database
full = Effect.opened (pos 2) (pos (10 ^ 38 - 1)) (Effect.opened (pos 1) (pos 100) empty)

abbrev full_row : AccountRow
full_row = record {
  id = pos 2;
  balance = pos (10 ^ 38 - 1);
  version = 0;
  created_at = 0;
  updated_at = 0;
}

full-IsUnique : IsUnique full.accounts
unfolding eq_ℤ
full-IsUnique = (refl, (refl, tt))
