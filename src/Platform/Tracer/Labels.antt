-- ===== src/Platform/Tracer/Labels.antt =====
-- Which statements have a label.
use transfer_demo.Prelude.{
  ◌≡◌, refl, ◌↔◌, true, false, ◌||◌, Option, none, some, List, [], ◌∷◌, ==_iff, arith,
}
use transfer_demo.Platform.Tracer.{
  Text, text, same_text, to_lower, fields, table_of, second, named, finished, operation_name,
}

pub same_text_iff : (s t : Text) → (same_text s t ≡ true) ↔ (s ≡ t)
same_text_iff [] [] = ground arith
same_text_iff [] (d ∷ t) = ground arith
same_text_iff (c ∷ s) [] = ground arith
same_text_iff (c ∷ s) (d ∷ t) = ground (arith, ==_iff c d, same_text_iff s t)

second-none : (f : Text) (fs : List Text) → (second (f ∷ fs) ≡ none) ↔ (fs ≡ [])
unfolding second
second-none f [] = ground arith
second-none f (g ∷ fs) = ground arith

-- The later clauses of the switch are not reached by `update`.
update_verb :
    (verb : Text)
    → verb ≡ text "update"
    → ((same_text verb (text "select") || same_text verb (text "delete")) ≡ false)
      × (same_text verb (text "insert") ≡ false)
      × (same_text verb (text "update") ≡ true)
update_verb verb is_update = rw is_update (refl, refl, refl)

table_of-none :
    (verb : Text) (fs : List Text)
    → (table_of verb (verb ∷ fs) ≡ none) ↔ ((verb ≡ text "update") × (fs ≡ []))
unfolding table_of
table_of-none verb fs =
    ground (arith, same_text_iff verb (text "update"), update_verb verb, second-none verb fs)

finished-none : (sql verb : Text) (m : Option Text) → (finished sql verb m ≡ none) ↔ (m ≡ none)
finished-none sql verb none = ground arith
finished-none sql verb (some table) = ground arith

named-none : (sql : Text) (fs : List Text) → (named sql fs ≡ none) ↔ (fs ≡ text "update" ∷ [])
named-none sql [] = ground arith
named-none sql (verb ∷ fs) =
    ground (arith, finished-none sql verb (table_of verb (verb ∷ fs)), table_of-none verb fs)

-- A statement has no label, where the code indexes out of range, if and only if its lower case
-- consists of the single word `update`.
pub unlabelled_update :
    (sql : Text) → (operation_name sql ≡ none) ↔ (fields (to_lower sql) ≡ text "update" ∷ [])
unfolding operation_name
unlabelled_update sql = named-none sql (fields (to_lower sql))
