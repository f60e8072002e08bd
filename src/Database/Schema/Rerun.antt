-- ===== src/Database/Schema/Rerun.antt =====
-- A second run of a file of CREATE … IF NOT EXISTS, as every start of the service makes one.
use transfer_demo.Prelude.{◌≡◌, true, Bool, List, [], ◌∷◌, String}
use transfer_demo.Database.Schema.{Create, create_table, create_index, Catalog, has_relation}

abbrev name_of : Create → String
name_of (create_table b t) = t.name
name_of (create_index b i) = i.name

abbrev is_guarded : Create → Bool
is_guarded (create_table b t) = b
is_guarded (create_index b i) = b

-- Every relation of the file is there.
abbrev AllMade : List Create → Catalog → Type 0
AllMade [] c = Unit
AllMade (s ∷ ss) c = (has_relation (name_of s) c ≡ true) × AllMade ss c

-- Every statement has IF NOT EXISTS.
abbrev AllGuarded : List Create → Type 0
AllGuarded [] = Unit
AllGuarded (s ∷ ss) = (is_guarded s ≡ true) × AllGuarded ss

-- The four tables and the five indexes of the service.
abbrev pub relations : List String
relations =
    "accounts" ∷ "deposits" ∷ "transfers" ∷ "uq_transfers_idempotency_key" ∷ "idx_transfers_source"
    ∷ "idx_transfers_destination" ∷ "ledger_entries" ∷ "idx_ledger_account" ∷ "idx_ledger_transfer"
    ∷ []

abbrev pub HasAll : List String → Catalog → Type 0
HasAll [] c = Unit
HasAll (name ∷ names) c = (has_relation name c ≡ true) × HasAll names c
