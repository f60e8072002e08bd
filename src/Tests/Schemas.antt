-- ===== src/Tests/Schemas.antt =====
-- The migrations on an empty catalog.
use transfer_demo.Prelude.{◌≡◌, refl, none, some, [], ◌∷◌}
use transfer_demo.Platform.Migrate.{only_up}
use transfer_demo.Database.Schema.{Catalog, run_creates, drop_all}
use transfer_demo.Database.Schema.Migrations.{
  accounts, deposits, transfers, ledger_entries, unique_key, transfers_source,
  transfers_destination, ledger_account, ledger_transfer, up_migration, down_migration,
  embedded_files,
}
use transfer_demo.Database.Schema.Fresh.{up_creates}
use transfer_demo.Database.Schema.Down.{down_refused}

abbrev nothing : Catalog
nothing = record { tables = []; indexes = [] }

abbrev created : Catalog
created = record {
  tables = ledger_entries ∷ transfers ∷ deposits ∷ accounts ∷ [];
  indexes =
      ledger_transfer ∷ ledger_account ∷ transfers_destination ∷ transfers_source ∷ unique_key ∷ [];
}

up_creates_example : run_creates up_migration nothing ≡ some created
up_creates_example =
    up_creates nothing (refl, (refl, (refl, (refl, (refl, (refl, (refl, (refl, (refl, tt)))))))))

down_refused_example : drop_all down_migration created ≡ none
down_refused_example = down_refused created (refl, refl)

-- Migrate reads the embedded directory and leaves the down migration out.
only_the_up_migration : only_up embedded_files ≡ "0001_init.up.sql" ∷ []
only_the_up_migration = refl
