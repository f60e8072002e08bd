-- ===== src/Platform/Migrate/Files.antt =====
-- The files that Migrate applies.
use mathlib.Core.List.{Perm}
use transfer_demo.Prelude.{◌≡◌, refl, ap, List, [], ◌∷◌, ◌++◌, String, arith}
use transfer_demo.Domain.{GoError, wrap}
use transfer_demo.Result.{Result, ok, err, Done, done}
use transfer_demo.Platform.Names.{sort_names}
use transfer_demo.Platform.Names.Order.{IsSorted, IsSorted-sort_names, Perm-sort_names}
use transfer_demo.Platform.Migrate.{
  Event, acquired, released, locked, unlocked, applied, refused, Platform, only_up, up_files,
  exec_file, run_file, run_files, apply_all, deferred, when_locked, when_acquired, migrate,
}

abbrev pub applied_by : Event → List String
applied_by acquired = []
applied_by released = []
applied_by locked = []
applied_by unlocked = []
applied_by (applied name) = name ∷ []
applied_by (refused name) = []

-- The files that a run applies, in order.
abbrev pub applied_of : List Event → List String
applied_of [] = []
applied_of (e ∷ es) = applied_by e ++ applied_of es

-- The files applied begin the list, and are all of it where the run reports no error.
abbrev pub Begins : List String → List Event × Done → Type 0
Begins names run =
    (rest : List String) × (applied_of run.0 ++ rest ≡ names)
    × (run.1 ≡ done → applied_of run.0 ≡ names)

applied_of-deferred :
    (es : List Event) (e : Event) → applied_by e ≡ [] → applied_of (deferred es e) ≡ applied_of es
applied_of-deferred [] e h = rw h refl
applied_of-deferred (f ∷ es) e h = ap (λ ns. applied_by f ++ ns) (applied_of-deferred es e h)

Begins-deferred :
    (names : List String) (run : List Event × Done) (e f : Event)
    → applied_by e ≡ []
    → applied_by f ≡ []
    → Begins names run
    → Begins names (e ∷ deferred run.0 f, run.1)
Begins-deferred names run e f h k (left, b, all) =
    rw (h, applied_of-deferred run.0 f k) (left, b, all)

exec_file-Begins :
    (name : String) (names : List String) (d : Done) (rest : List Event × Done)
    → Begins names rest
    → Begins (name ∷ names) (exec_file name d rest)
exec_file-Begins name names (ok u) rest (left, b, all) =
    (left, ap (λ ns. name ∷ ns) b, λ h. ap (λ ns. name ∷ ns) (all h))
exec_file-Begins name names (err e) rest b = (name ∷ names, refl, ground arith)

run_file-Begins :
    (p : Platform) (name : String) (names : List String) (r : Result String)
    (rest : List Event × Done)
    → Begins names rest
    → Begins (name ∷ names) (run_file p name r rest)
run_file-Begins p name names (ok sql) rest b = exec_file-Begins name names (p.exec sql) rest b
run_file-Begins p name names (err e) rest b = (name ∷ names, refl, ground arith)

run_files-Begins : (p : Platform) (names : List String) → Begins names (run_files p names)
unfolding run_files
run_files-Begins p [] = ([], refl, λ h. refl)
run_files-Begins p (name ∷ names) =
    run_file-Begins p name names (p.read_file name) (run_files p names) (run_files-Begins p names)

-- A run that ends before the loop.
failed-Begins : (names : List String) (e : GoError) → Begins names ([], err e)
failed-Begins names e = (names, refl, ground arith)

when_locked-Begins :
    (p : Platform) (names : List String) (d : Done)
    → up_files p ≡ ok names
    → Begins names (when_locked p d)
unfolding when_locked apply_all
when_locked-Begins p names (ok u) h =
    rw h (
      Begins-deferred names (run_files p names) locked unlocked refl refl
        (run_files-Begins p names))
when_locked-Begins p names (err e) h = failed-Begins names (wrap "acquire advisory lock" e)

when_acquired-Begins :
    (p : Platform) (names : List String) (d : Done)
    → up_files p ≡ ok names
    → Begins names (when_acquired p d)
unfolding when_acquired
when_acquired-Begins p names (ok u) h =
    Begins-deferred names (when_locked p p.advisory_lock) acquired released refl refl
      (when_locked-Begins p names p.advisory_lock h)
when_acquired-Begins p names (err e) h = failed-Begins names (wrap "acquire conn" e)

up_files-sort_names :
    (p : Platform) (entries : List String)
    → p.read_dir ≡ ok entries
    → up_files p ≡ ok (sort_names (only_up entries))
unfolding up_files
up_files-sort_names p entries h = rw h refl

-- For a directory with the given entries, the files that Migrate applies begin the sorted list of
-- those whose name ends in `.up.sql`, each as often as it stands in the directory; where Migrate
-- returns no error, they are the whole list.
pub migrate-Begins :
    (p : Platform) (entries : List String)
    → p.read_dir ≡ ok entries
    → (names : List String) × IsSorted names
      × Perm (only_up entries) names
      × Begins names (migrate p)
unfolding migrate
migrate-Begins p entries h = (
  sort_names (only_up entries),
  IsSorted-sort_names (only_up entries),
  Perm-sort_names (only_up entries),
  when_acquired-Begins p (sort_names (only_up entries)) p.acquire (up_files-sort_names p entries h),
)
