-- ===== src/Tests/Runs.antt =====
-- Small databases and commands.
use transfer_demo.Prelude.{pos, []}
use transfer_demo.Database.{Database, empty}
use transfer_demo.Action.{World}
use transfer_demo.Service.Accounts.Effect as Effect
use transfer_demo.Service.Transfers.{TransferCmd}
use transfer_demo.Tests.Externals.{fixed, units}

-- Account 1 holds 100 units, account 2 holds 5.
abbrev pub two_accounts : Database
two_accounts = Effect.opened (pos 2) (pos 5) (Effect.opened (pos 1) (pos 100) empty)

abbrev pub opened : World
opened = record { db = two_accounts; events = [] }

abbrev pub order : TransferCmd fixed
order = record {
  source_id = pos 1;
  destination_id = pos 2;
  amount = units (pos 30);
  idempotency_key = "k1";
}
