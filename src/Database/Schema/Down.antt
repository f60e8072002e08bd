-- ===== src/Database/Schema/Down.antt =====
-- A table that the down migration leaves behind, with a reference to one that it drops.
use transfer_demo.Prelude.{
  ◌≡◌, refl, ap, Bool, true, false, not, ◌&&◌, ◌||◌, Option, none, some, List, [], ◌∷◌, ◌++◌,
  String, arith,
}
use transfer_demo.Platform.Tracer.{Text, text, same_text}
use transfer_demo.Platform.Tracer.Labels.{same_text_iff}
use transfer_demo.Database.Schema.{
  Table, Catalog, is_same, has_table, refers_to, is_referenced, without_table, drop_table, drop_all,
  then_run,
}
use transfer_demo.Database.Schema.Migrations.{down_migration}

-- A table by this name has the reference.
abbrev pub refers_from : String → String → List Table → Bool
refers_from name other [] = false
refers_from name other (t ∷ ts) =
    is_same t.name name && refers_to other t.references || refers_from name other ts

-- Names that are the same are the same as another, or not, alike.
is_same-left : (a b other : String) → is_same a b ≡ true → is_same a other ≡ is_same b other
is_same-left a b other h =
    ap (λ (t : Text). same_text t (text other)) ((same_text_iff (text a) (text b)).0 h)

-- Dropping a third table leaves the table, and the reference.
has_table-without_table :
    (name dropped : String) (ts : List Table)
    → is_same name dropped ≡ false
    → has_table name ts ≡ true
    → has_table name (without_table dropped ts) ≡ true
has_table-without_table name dropped [] apart h = h
has_table-without_table name dropped (t ∷ ts) apart h =
    ground (arith, is_same-left t.name name dropped, has_table-without_table name dropped ts apart)

refers_from-without_table :
    (name other dropped : String) (ts : List Table)
    → is_same name dropped ≡ false
    → refers_from name other ts ≡ true
    → refers_from name other (without_table dropped ts) ≡ true
refers_from-without_table name other dropped [] apart h = h
refers_from-without_table name other dropped (t ∷ ts) apart h =
    ground (
      arith,
      is_same-left t.name name dropped,
      refers_from-without_table name other dropped ts apart,
    )

refers_from-is_referenced :
    (name other : String) (ts : List Table)
    → is_same name other ≡ false
    → refers_from name other ts ≡ true
    → is_referenced other ts ≡ true
refers_from-is_referenced name other [] apart h = h
refers_from-is_referenced name other (t ∷ ts) apart h =
    ground (arith, is_same-left t.name name other, refers_from-is_referenced name other ts apart)

module _ (name other : String) where
  -- The table `other` is there, and the table `name` refers to it.
  abbrev pub IsHeld : Catalog → Type 0
  IsHeld c = (has_table other c.tables ≡ true) × (refers_from name other c.tables ≡ true)

  drop_table-IsHeld :
      (dropped : String) (c c' : Catalog)
      → is_same other dropped ≡ false
      → is_same name dropped ≡ false
      → drop_table dropped c ≡ some c'
      → IsHeld c
      → IsHeld c'
  unfolding drop_table
  drop_table-IsHeld dropped c c' apart apart' e (there, refers) = ground (
    arith,
    has_table-without_table other dropped c.tables apart there,
    refers_from-without_table name other dropped c.tables apart' refers,
  )

  drop_table-refused :
      (c : Catalog) → is_same name other ≡ false → IsHeld c → drop_table other c ≡ none
  unfolding drop_table
  drop_table-refused c apart (there, refers) =
      rw (there, refers_from-is_referenced name other c.tables apart refers) refl

  -- None of the names is that of one of the two tables.
  abbrev are_others : List String → Bool
  are_others [] = true
  are_others (n ∷ names) = not (is_same other n) && not (is_same name n) && are_others names

  drop_all-refused :
      (names rest : List String) (c : Catalog)
      → is_same name other ≡ false
      → are_others names ≡ true
      → IsHeld c
      → drop_all (names ++ (other ∷ rest)) c ≡ none
  unfolding drop_all
  drop_all-refused [] rest c apart others held = rw (drop_table-refused c apart held) refl
  drop_all-refused (n ∷ names) rest c apart others held =
      after (drop_table n c) refl
        (λ mid. drop_all-refused names rest mid apart (ground (arith, others)))
    where
      after :
          (o : Option Catalog)
          → drop_table n c ≡ o
          → ((mid : Catalog) → IsHeld mid → drop_all (names ++ (other ∷ rest)) mid ≡ none)
          → then_run (drop_all (names ++ (other ∷ rest))) o ≡ none
      after none e ih = refl
      after (some mid) e ih =
          ih mid
            (drop_table-IsHeld n c mid (ground (arith, others)) (ground (arith, others)) e held)

-- The down migration is refused as a whole on every catalog in which a table deposits refers to the
-- table accounts, whatever else it has: it drops accounts and not deposits.
pub down_refused : (c : Catalog) → IsHeld "deposits" "accounts" c → drop_all down_migration c ≡ none
down_refused c held =
    drop_all-refused "deposits" "accounts" ("ledger_entries" ∷ "transfers" ∷ []) [] c refl refl held
