-- ===== src/Database/Schema/Fresh.antt =====
-- The first run of the up migration.
use transfer_demo.Prelude.{◌≡◌, refl, false, some, List, [], ◌∷◌, String}
use transfer_demo.Database.Schema.{Catalog, has_relation, execute_create, run_creates}
use transfer_demo.Database.Schema.Migrations.{
  up_migration, accounts, deposits, transfers, ledger_entries, unique_key, transfers_source,
  transfers_destination, ledger_account, ledger_transfer,
}
use transfer_demo.Database.Schema.Rerun.{relations}

abbrev pub HasNone : List String → Catalog → Type 0
HasNone [] c = Unit
HasNone (name ∷ names) c = (has_relation name c ≡ false) × HasNone names c

-- On a catalog that has none of the names, the up migration is not refused, creates the four tables
-- and the five indexes of the service, each after what it refers to, and leaves all else.
pub up_creates :
    (c : Catalog)
    → HasNone relations c
    → run_creates up_migration c
      ≡ some (record {
        tables = ledger_entries ∷ transfers ∷ deposits ∷ accounts ∷ c.tables;
        indexes =
            ledger_transfer ∷ ledger_account ∷ transfers_destination ∷ transfers_source ∷ unique_key
            ∷ c.indexes;
      })
unfolding run_creates execute_create
up_creates c (a, (b, (d, (e, (f, (g, (h, (i, (j, k))))))))) = rw (a, b, d, e, f, g, h, i, j) refl
