-- ===== src/Platform/Names.antt =====
-- The file names that internal/platform/postgres/migrate.go sorts: sort.Strings and
-- strings.HasSuffix on lists of codes.
pub mod Order
use transfer_demo.Prelude.{
  ℕ, Bool, true, false, ◌||◌, ◌&&◌, List, [], ◌∷◌, ltb, ◌==◌, if◌then◌else◌, String,
}
use transfer_demo.Platform.Tracer.{Text, text, same_text}

-- The order of strings, by the first code in which they differ.
abbrev pub leb_text : Text → Text → Bool
leb_text [] t = true
leb_text (c ∷ s) [] = false
leb_text (c ∷ s) (d ∷ t) = let rest = leb_text s t in ltb c d || (c == d && rest)

abbrev pub leb_name : String → String → Bool
leb_name s t = leb_text (text s) (text t)

abbrev pub insert_name : String → List String → List String
insert_name s [] = s ∷ []
insert_name s (t ∷ ts) =
    let rest = insert_name s ts in if leb_name s t then s ∷ t ∷ ts else t ∷ rest

-- sort.Strings
abbrev pub sort_names : List String → List String
sort_names [] = []
sort_names (s ∷ ts) = insert_name s (sort_names ts)

-- strings.HasSuffix
abbrev pub has_suffix : Text → Text → Bool
has_suffix [] p = same_text [] p
has_suffix (c ∷ s) p = let rest = has_suffix s p in same_text (c ∷ s) p || rest
