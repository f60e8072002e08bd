-- ===== src/Platform/Migrate.antt =====
-- internal/platform/postgres/migrate.go: Migrate and upFiles. The connection, the database and the
-- embedded files are parameters, whose calls succeed or fail; a run is the sequence of what it does.
pub mod Run
pub mod Files
use Prim.Native.String.{◌++◌}
use transfer_demo.Prelude.{
  Bool, true, false, Option, none, some, List, [], ◌∷◌, String, if◌then◌else◌,
}
use transfer_demo.Domain.{GoError, wrap}
use transfer_demo.Result.{Result, ok, err, Done, done}
use transfer_demo.Platform.Tracer.{text}
use transfer_demo.Platform.Names.{sort_names, has_suffix}

-- What a run does to the connection: `applied` is an `Exec` that succeeded, `refused` one that
-- failed, each with the file's name.
pub data Event : Type 0 where
  acquired released locked unlocked : Event
  applied refused : String → Event

pub record Platform : Type 0 where
  pub acquire : Done
  pub advisory_lock : Done
  -- The names of the embedded directory, and the file of a name.
  pub read_dir : Result (List String)
  pub read_file : String → Result String
  -- The outcome of `Exec` on the text of a file.
  pub exec : String → Done

abbrev pub only_up : List String → List String
only_up [] = []
only_up (name ∷ names) =
    let rest = only_up names in
    if has_suffix (text name) (text ".up.sql") then name ∷ rest else rest

unfoldable pub up_files : Platform → Result (List String)
up_files p = elim p.read_dir [
  | ok entries ↦ ok (sort_names (only_up entries))
  | err e ↦ err (wrap "read migrations dir" e)
]

abbrev pub exec_file : String → Done → List Event × Done → List Event × Done
exec_file name (ok u) rest = (applied name ∷ rest.0, rest.1)
exec_file name (err e) rest = (refused name ∷ [], err (wrap ("apply " ++ name) e))

abbrev pub run_file : Platform → String → Result String → List Event × Done → List Event × Done
run_file p name (ok sql) rest = exec_file name (p.exec sql) rest
run_file p name (err e) rest = ([], err (wrap ("read " ++ name) e))

-- The loop over the files.
unfoldable pub run_files : Platform → List String → List Event × Done
run_files p [] = ([], done)
run_files p (name ∷ names) = run_file p name (p.read_file name) (run_files p names)

unfoldable pub apply_all : Platform → Result (List String) → List Event × Done
apply_all p (ok names) = run_files p names
apply_all p (err e) = ([], err e)

-- A deferred call comes last.
abbrev pub deferred : List Event → Event → List Event
deferred [] e = e ∷ []
deferred (f ∷ fs) e = f ∷ deferred fs e

-- What follows the lock, with the deferred unlock.
unfoldable pub when_locked : Platform → Done → List Event × Done
when_locked p (ok u) =
    let run = apply_all p (up_files p) in (locked ∷ deferred run.0 unlocked, run.1)
when_locked p (err e) = ([], err (wrap "acquire advisory lock" e))

-- What follows the connection, with its deferred release.
unfoldable pub when_acquired : Platform → Done → List Event × Done
when_acquired p (ok u) =
    let run = when_locked p p.advisory_lock in (acquired ∷ deferred run.0 released, run.1)
when_acquired p (err e) = ([], err (wrap "acquire conn" e))

unfoldable pub migrate : Platform → List Event × Done
migrate p = when_acquired p p.acquire
