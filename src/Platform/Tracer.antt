-- ===== src/Platform/Tracer.antt =====
-- internal/platform/postgres/tracer.go: the label of a statement. A text is the list of its codes;
-- upper case and white space are those of ASCII, as in every statement of the repositories.
pub mod Labels
use mathlib.Core.Option
use Prim.Native.Char.{code}
use transfer_demo.Prelude.{
  ℕ, ◌+◌, ◌-◌, ◌≡◌, Bool, true, false, ◌&&◌, ◌||◌, Option, none, some, List, [], ◌∷◌, ◌++◌, map,
  String, leb, ◌==◌, if◌then◌else◌,
}

abbrev pub Text : Type 0
Text = List ℕ

abbrev pub text : String → Text
text String.[] = []
text (String.◌∷◌ c s) = code c ∷ text s

abbrev pub same_text : Text → Text → Bool
same_text [] [] = true
same_text [] (d ∷ t) = false
same_text (c ∷ s) [] = false
same_text (c ∷ s) (d ∷ t) = let rest = same_text s t in c == d && rest

abbrev pub lower : ℕ → ℕ
lower c = if leb 65 c && leb c 90 then c + 32 else c

-- strings.ToLower
abbrev pub to_lower : Text → Text
to_lower [] = []
to_lower (c ∷ s) = lower c ∷ to_lower s

abbrev pub is_space : ℕ → Bool
is_space c = c == 32 || leb 9 c && leb c 13

abbrev pub flush : Text → List Text → List Text
flush [] words = words
flush (c ∷ word) words = (c ∷ word) ∷ words

-- The word that the text begins with, which may be empty, and the later ones.
abbrev pub split_words : Text → Text × List Text
split_words [] = ([], [])
split_words (c ∷ s) =
    let (word, words) = split_words s in
    if is_space c then ([], flush word words) else (c ∷ word, words)

-- strings.Fields
unfoldable pub fields : Text → List Text
fields s = let (word, words) = split_words s in flush word words

abbrev pub starts_with : Text → Text → Bool
starts_with [] s = true
starts_with (c ∷ p) [] = false
starts_with (c ∷ p) (d ∷ s) = let rest = starts_with p s in c == d && rest

-- strings.Contains
unfoldable pub contains : Text → Text → Bool
contains [] p = starts_with p []
contains (c ∷ s) p = let rest = contains s p in starts_with p (c ∷ s) || rest

-- The cutset "(),;".
abbrev pub is_punctuation : ℕ → Bool
is_punctuation c = c == 40 || c == 41 || c == 44 || c == 59

abbrev pub trim_left : Text → Text
trim_left [] = []
trim_left (c ∷ s) = let rest = trim_left s in if is_punctuation c then rest else c ∷ s

abbrev pub or_empty : ℕ → Text → Text
or_empty c [] = if is_punctuation c then [] else c ∷ []
or_empty c (d ∷ s) = c ∷ d ∷ s

abbrev pub trim_right : Text → Text
trim_right [] = []
trim_right (c ∷ s) = or_empty c (trim_right s)

unfoldable pub clean : Text → Text
clean tok = trim_right (trim_left tok)

unfoldable pub token_after : List Text → Text → Text
unfolding clean
token_after [] keyword = []
token_after (f ∷ []) keyword = []
token_after (f ∷ g ∷ fs) keyword =
    let rest = token_after (g ∷ fs) keyword in if same_text f keyword then clean g else rest

-- clean(fields[1])
unfoldable pub second : List Text → Option Text
unfolding clean
second [] = none
second (f ∷ []) = none
second (f ∷ g ∷ fs) = some (clean g)

-- The table of a statement; `none` where `fields[1]` is out of range, which is a panic.
unfoldable pub table_of : Text → List Text → Option Text
unfolding token_after second
table_of verb fs =
    if same_text verb (text "select") || same_text verb (text "delete")
    then some (token_after fs (text "from"))
    else if same_text verb (text "insert")
    then some (token_after fs (text "into"))
    else if same_text verb (text "update")
    then second fs
    else some []

abbrev pub labelled : Text → Text → Text
labelled verb [] = verb
labelled verb (c ∷ table) = verb ++ (32 ∷ c ∷ table)

abbrev pub with_lock : Text → Text → Text
with_lock sql op =
    if contains (to_lower sql) (text "for update") then op ++ text " (locked)" else op

abbrev pub finished : Text → Text → Option Text → Option Text
finished sql verb none = none
finished sql verb (some table) = some (with_lock sql (labelled verb table))

abbrev pub named : Text → List Text → Option Text
named sql [] = some (text "unknown")
named sql (verb ∷ fs) = finished sql verb (table_of verb (verb ∷ fs))

unfoldable pub operation_name : Text → Option Text
unfolding fields contains table_of
operation_name sql = named sql (fields (to_lower sql))

-- What TraceQueryStart puts into the query's context: the time, and the statement's label.
pub record TraceData : Type 0 where
  pub start : ℕ
  pub operation : Text

unfoldable pub trace_query_start : ℕ → Text → Option TraceData
unfolding operation_name
trace_query_start now sql =
    Option.map (λ operation. record { start = now; operation = operation }) (operation_name sql)

-- What TraceQueryEnd hands to the observer: nothing without the data of a start.
unfoldable pub trace_query_end : ℕ → Option TraceData → List (Text × ℕ)
trace_query_end now none = []
trace_query_end now (some td) = (td.operation, now - td.start) ∷ []
