-- ===== src/Repository/GoMap.antt =====
-- `map[int64]V`, as far as LockForUpdate and its caller use it.
use transfer_demo.Prelude.{Option, none, some, List, [], ◌∷◌, ℤ, eq_ℤ, if◌then◌else◌}

abbrev pub GoMap : Type 0 → Type 0
GoMap V = List (ℤ × V)

module _ {V : Type 0} where
  -- `m[k] = v`
  abbrev pub insert : ℤ → V → GoMap V → GoMap V
  insert k v [] = (k, v) ∷ []
  insert k v ((j, u) ∷ m) = if eq_ℤ j k then (k, v) ∷ m else (j, u) ∷ insert k v m

  -- `v, ok := m[k]`
  abbrev pub lookup : ℤ → GoMap V → Option V
  lookup k [] = none
  lookup k ((j, v) ∷ m) = if eq_ℤ j k then some v else lookup k m
