-- ===== src/Platform/Names/Order.antt =====
-- Sorting the names.
use mathlib.Core.List.{Perm}
use mathlib.Core.List.Perm
use transfer_demo.Prelude.{◌≡◌, refl, ◌⊎◌, inl, inr, true, List, [], ◌∷◌, String, Bool-cases, arith}
use transfer_demo.Platform.Tracer.{Text, text}
use transfer_demo.Platform.Names.{leb_text, leb_name, insert_name, sort_names}

-- The name is at most every name of the list.
abbrev pub Before : String → List String → Type 0
Before s [] = Unit
Before s (t ∷ ts) = (leb_name s t ≡ true) × Before s ts

abbrev pub IsSorted : List String → Type 0
IsSorted [] = Unit
IsSorted (s ∷ ts) = Before s ts × IsSorted ts

leb_text-total : (s t : Text) → (leb_text s t ≡ true) ⊎ (leb_text t s ≡ true)
leb_text-total [] t = inl refl
leb_text-total (c ∷ s) [] = inr refl
leb_text-total (c ∷ s) (d ∷ t) = ground (arith, leb_text-total s t)

leb_text_trans : (s t u : Text) → leb_text s t ≡ true → leb_text t u ≡ true → leb_text s u ≡ true
leb_text_trans [] t u h k = refl
leb_text_trans (c ∷ s) [] u h k = ground arith
leb_text_trans (c ∷ s) (d ∷ t) [] h k = ground arith
leb_text_trans (c ∷ s) (d ∷ t) (e ∷ u) h k = ground (arith, leb_text_trans s t u)

Before-trans : (s t : String) (us : List String) → leb_name s t ≡ true → Before t us → Before s us
Before-trans s t [] h b = tt
Before-trans s t (u ∷ us) h b =
    (leb_text_trans (text s) (text t) (text u) h b.0, Before-trans s t us h b.1)

Before-insert_name :
    (s t : String) (us : List String)
    → leb_name s t ≡ true
    → Before s us
    → Before s (insert_name t us)
Before-insert_name s t [] h b = (h, tt)
Before-insert_name s t (u ∷ us) h b = ground (arith, Before-insert_name s t us)

IsSorted-insert_name : (s : String) (ts : List String) → IsSorted ts → IsSorted (insert_name s ts)
IsSorted-insert_name s [] o = (tt, tt)
IsSorted-insert_name s (t ∷ ts) o = ground (
  arith,
  leb_text-total (text s) (text t),
  Before-trans s t ts,
  Before-insert_name t s ts,
  IsSorted-insert_name s ts,
)

pub IsSorted-sort_names : (ts : List String) → IsSorted (sort_names ts)
IsSorted-sort_names [] = tt
IsSorted-sort_names (t ∷ ts) = IsSorted-insert_name t (sort_names ts) (IsSorted-sort_names ts)

Perm-insert_name : (s : String) (ts : List String) → Perm (s ∷ ts) (insert_name s ts)
Perm-insert_name s [] = Perm.refl (s ∷ [])
Perm-insert_name s (t ∷ ts) = elim (Bool-cases (leb_name s t)) [
  | inl h ↦ rw h (Perm.refl (s ∷ t ∷ ts))
  | inr h ↦ rw h (Perm.trans (Perm.swap t s ts) (Perm.cons t (Perm-insert_name s ts)))
]

pub Perm-sort_names : (ts : List String) → Perm ts (sort_names ts)
Perm-sort_names [] = Perm.nil
Perm-sort_names (t ∷ ts) =
    Perm.trans (Perm.cons t (Perm-sort_names ts)) (Perm-insert_name t (sort_names ts))
