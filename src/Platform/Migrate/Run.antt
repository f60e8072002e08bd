-- ===== src/Platform/Migrate/Run.antt =====
-- The runs of Migrate.
use transfer_demo.Prelude.{
  ◌≡◌, refl, ◌∙◌, Option, none, some, List, [], ◌∷◌, String, ◌⊎◌, inl, inr, arith,
}
use transfer_demo.Result.{Result, ok, err, Done}
use transfer_demo.Platform.Migrate.{
  Event, acquired, released, locked, unlocked, applied, refused, Platform, up_files, exec_file,
  run_file, run_files, apply_all, deferred, when_locked, when_acquired, migrate,
}

-- How far a run has come: `failing` after a file that the database refused.
pub data Stage : Type 0 where
  idle connected holding failing closing : Stage

-- The protocol: one connection, released at the end; files only under the lock, none after a
-- refusal; a lock that is taken is given back before the release.
abbrev pub follow : Event → Stage → Option Stage
follow acquired idle = some connected
follow locked connected = some holding
follow (applied name) holding = some holding
follow (refused name) holding = some failing
follow unlocked holding = some closing
follow unlocked failing = some closing
follow released connected = some idle
follow released closing = some idle
follow e s = none

abbrev pub follow_all : List Event → Option Stage → Option Stage
follow_all es none = none
follow_all [] (some s) = some s
follow_all (e ∷ es) (some s) = follow_all es (follow e s)

-- The stages in which the deferred unlock runs.
abbrev Unlocks : Option Stage → Type 0
Unlocks s = (s ≡ some holding) ⊎ (s ≡ some failing)

exec_file-Unlocks :
    (name : String) (d : Done) (rest : List Event × Done)
    → Unlocks (follow_all rest.0 (some holding))
    → Unlocks (follow_all (exec_file name d rest).0 (some holding))
exec_file-Unlocks name (ok u) rest h = h
exec_file-Unlocks name (err e) rest h = inr refl

run_file-Unlocks :
    (p : Platform) (name : String) (r : Result String) (rest : List Event × Done)
    → Unlocks (follow_all rest.0 (some holding))
    → Unlocks (follow_all (run_file p name r rest).0 (some holding))
run_file-Unlocks p name (ok sql) rest h = exec_file-Unlocks name (p.exec sql) rest h
run_file-Unlocks p name (err e) rest h = inl refl

run_files-Unlocks :
    (p : Platform) (names : List String) → Unlocks (follow_all (run_files p names).0 (some holding))
unfolding run_files
run_files-Unlocks p [] = inl refl
run_files-Unlocks p (name ∷ names) =
    run_file-Unlocks p name (p.read_file name) (run_files p names) (run_files-Unlocks p names)

apply_all-Unlocks :
    (p : Platform) (r : Result (List String))
    → Unlocks (follow_all (apply_all p r).0 (some holding))
unfolding apply_all
apply_all-Unlocks p (ok names) = run_files-Unlocks p names
apply_all-Unlocks p (err e) = inl refl

follow_all-deferred :
    (es : List Event) (e : Event) (o : Option Stage)
    → follow_all (deferred es e) o ≡ follow_all (e ∷ []) (follow_all es o)
follow_all-deferred es e none = refl
follow_all-deferred [] e (some s) = refl
follow_all-deferred (f ∷ es) e (some s) = follow_all-deferred es e (follow f s)

unlock-closing : (o : Option Stage) → Unlocks o → follow_all (unlocked ∷ []) o ≡ some closing
unlock-closing o h = ground arith

-- The stages in which the deferred release runs.
abbrev Releases : Option Stage → Type 0
Releases s = (s ≡ some connected) ⊎ (s ≡ some closing)

when_locked-Releases :
    (p : Platform) (d : Done) → Releases (follow_all (when_locked p d).0 (some connected))
unfolding when_locked
when_locked-Releases p (ok u) = inr (
    follow_all-deferred (apply_all p (up_files p)).0 unlocked (some holding)
    ∙ unlock-closing (follow_all (apply_all p (up_files p)).0 (some holding))
        (apply_all-Unlocks p (up_files p)))
when_locked-Releases p (err e) = inl refl

release-idle : (o : Option Stage) → Releases o → follow_all (released ∷ []) o ≡ some idle
release-idle o h = ground arith

when_acquired-idle :
    (p : Platform) (d : Done) → follow_all (when_acquired p d).0 (some idle) ≡ some idle
unfolding when_acquired
when_acquired-idle p (ok u) =
    follow_all-deferred (when_locked p p.advisory_lock).0 released (some connected)
    ∙ release-idle (follow_all (when_locked p p.advisory_lock).0 (some connected))
        (when_locked-Releases p p.advisory_lock)
when_acquired-idle p (err e) = refl

-- Whatever fails, a run of Migrate keeps the protocol and ends in its first stage: the connection is
-- released if it was acquired, the advisory lock is given back if it was taken, files are applied
-- only under it, and none after one that the database refused.
pub migrate-follow : (p : Platform) → follow_all (migrate p).0 (some idle) ≡ some idle
unfolding migrate
migrate-follow p = when_acquired-idle p p.acquire
