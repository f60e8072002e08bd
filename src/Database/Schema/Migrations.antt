-- ===== src/Database/Schema/Migrations.antt =====
-- migrations/: what 0001_init.up.sql creates, what 0001_init.down.sql drops, and what embed.go takes
-- along.
use transfer_demo.Prelude.{true, false, none, some, List, [], ◌∷◌, String}
use transfer_demo.Database.Schema.{
  ColumnType, bigint, bigserial, numeric_38_18, timestamptz, uuid_type, text_type, Column, Table,
  Index, Create, create_table, create_index,
}

abbrev column : String → ColumnType → Column
column name type = record { name = name; type = type; not_null = true; default = none }

abbrev defaulting : String → ColumnType → String → Column
defaulting name type value = record {
  name = name;
  type = type;
  not_null = true;
  default = some value;
}

abbrev pub accounts : Table
accounts = record {
  name = "accounts";
  columns =
      column "id" bigint
      ∷ column "balance" numeric_38_18
      ∷ defaulting "version" bigint "0"
      ∷ defaulting "created_at" timestamptz "now()"
      ∷ defaulting "updated_at" timestamptz "now()"
      ∷ [];
  references = [];
  checks = (some "balance_non_negative", "balance >= 0") ∷ [];
}

abbrev pub deposits : Table
deposits = record {
  name = "deposits";
  columns =
      column "id" bigserial
      ∷ column "account_id" bigint
      ∷ column "amount" numeric_38_18
      ∷ defaulting "created_at" timestamptz "now()"
      ∷ [];
  references = ("account_id", "accounts") ∷ [];
  checks = (none, "amount > 0") ∷ [];
}

abbrev pub transfers : Table
transfers = record {
  name = "transfers";
  columns =
      column "id" bigserial
      ∷ record { name = "idempotency_key"; type = uuid_type; not_null = false; default = none }
      ∷ column "source_id" bigint
      ∷ column "destination_id" bigint
      ∷ column "amount" numeric_38_18
      ∷ column "status" text_type
      ∷ defaulting "created_at" timestamptz "now()"
      ∷ [];
  references = ("source_id", "accounts") ∷ ("destination_id", "accounts") ∷ [];
  checks = (none, "amount > 0") ∷ (some "chk_diff_accounts", "source_id <> destination_id") ∷ [];
}

abbrev pub ledger_entries : Table
ledger_entries = record {
  name = "ledger_entries";
  columns =
      column "id" bigserial
      ∷ column "transfer_id" bigint
      ∷ column "account_id" bigint
      ∷ column "direction" text_type
      ∷ column "amount" numeric_38_18
      ∷ column "balance_after" numeric_38_18
      ∷ defaulting "created_at" timestamptz "now()"
      ∷ [];
  references = ("transfer_id", "transfers") ∷ ("account_id", "accounts") ∷ [];
  checks = (none, "amount > 0") ∷ [];
}

abbrev index_on : String → String → List String → Index
index_on name table columns = record {
  name = name;
  table = table;
  columns = columns;
  is_unique = false;
  condition = none;
}

abbrev pub unique_key : Index
unique_key = record {
  name = "uq_transfers_idempotency_key";
  table = "transfers";
  columns = "idempotency_key" ∷ [];
  is_unique = true;
  condition = some "idempotency_key IS NOT NULL";
}

abbrev pub transfers_source : Index
transfers_source = index_on "idx_transfers_source" "transfers" ("source_id" ∷ [])

abbrev pub transfers_destination : Index
transfers_destination = index_on "idx_transfers_destination" "transfers" ("destination_id" ∷ [])

abbrev pub ledger_account : Index
ledger_account = index_on "idx_ledger_account" "ledger_entries" ("account_id" ∷ "id" ∷ [])

abbrev pub ledger_transfer : Index
ledger_transfer = index_on "idx_ledger_transfer" "ledger_entries" ("transfer_id" ∷ [])

-- 0001_init.up.sql
abbrev pub up_migration : List Create
up_migration =
    create_table true accounts
    ∷ create_table true deposits
    ∷ create_table true transfers
    ∷ create_index true unique_key
    ∷ create_index true transfers_source
    ∷ create_index true transfers_destination
    ∷ create_table true ledger_entries
    ∷ create_index true ledger_account
    ∷ create_index true ledger_transfer
    ∷ []

-- 0001_init.down.sql
abbrev pub down_migration : List String
down_migration = "ledger_entries" ∷ "transfers" ∷ "accounts" ∷ []

-- `//go:embed *.sql`
abbrev pub embedded_files : List String
embedded_files = "0001_init.down.sql" ∷ "0001_init.up.sql" ∷ []
