-- ===== src/Scope.antt =====
-- Which files a change may touch: `MAIN_MANAGED_PATHS` and `isMainManagedPath` of
-- scripts/task/lib.mjs, `allowedFor`, `matches`, `completionAllowed` and `sparsePatterns` of
-- scripts/task/unified-lifecycle.mjs, and `matchesAllowed` of scripts/task/work-pre-commit.mjs.
pub mod Rules
pub mod Laws
pub mod Hook
mod Tests
use kakesu.Prelude.{
  ℕ, String, Bool, true, false, ◌&&◌, ◌||◌, not, Option, none, some, List, [], ◌∷◌, ◌++◌, map, ◌==◌,
  any, if◌then◌else◌, ◌⧺◌, starts_with, ends_with_char, is_digit, nat_eq,
}
use kakesu.Result.{Result, ok, throw, ◌>>=◌, ◌>>◌, throw_if}
use Prim.Native.Char.{code}

abbrev pub main_managed_paths : List String
main_managed_paths =
    "backlog.yaml" ∷ "project.yaml" ∷ "tasks/" ∷ "wiki/" ∷ "lap30/" ∷ "viewer/index.html" ∷ []

unfoldable pub is_main_managed_path : String → Bool
unfolding starts_with ends_with_char
is_main_managed_path file =
    any (λ entry. if ends_with_char b'/' entry then starts_with file entry else file == entry)
      main_managed_paths

unfoldable pub matches_rule : String → String → Bool
matches_rule file rule =
    if ends_with_char b'/' rule || ends_with_char b'-' rule
    then starts_with file rule
    else file == rule

unfoldable pub matches : String → List String → Bool
unfolding matches_rule
matches file rules = any (matches_rule file) rules

-- `rule.slice(0, -2)` for a rule that ends with "/**".
unfoldable pub directory_glob : String → Option String
directory_glob String.[] = none
directory_glob (String.◌∷◌ c s) =
    if String.◌∷◌ c s == "/**"
    then some "/"
    else elim (directory_glob s) [ none ↦ none | some r ↦ some (String.◌∷◌ c r) ]

-- The pre-commit hook's test of a staged file.
unfoldable pub matches_allowed : String → List String → Bool
unfolding matches_rule
matches_allowed file allowed =
    any
      (λ rule. elim (directory_glob rule) [
        | some directory ↦ starts_with file directory
        | none ↦ matches_rule file rule
      ])
      allowed

-- A text of the given classes of characters, one for each place.
unfoldable pub has_shape : List (ℕ → Bool) → String → Bool
has_shape [] String.[] = true
has_shape [] (String.◌∷◌ c s) = false
has_shape (p ∷ ps) String.[] = false
has_shape (p ∷ ps) (String.◌∷◌ c s) = p (code c) && has_shape ps s

-- /^TASK-\d{4}$/
unfoldable pub is_task_id : String → Bool
unfolding has_shape
is_task_id = has_shape (
    nat_eq b'T'
    ∷ nat_eq b'A'
    ∷ nat_eq b'S'
    ∷ nat_eq b'K'
    ∷ nat_eq b'-'
    ∷ is_digit
    ∷ is_digit
    ∷ is_digit
    ∷ is_digit
    ∷ [])

-- The fields of a backlog entry that `taskContext` passes on.
pub record Entry : Type 0 where
  pub id : String
  pub task_dir : String

unfoldable pub task_by_id : List Entry → String → Result Entry
task_by_id [] id = throw "Task is not registered in backlog.yaml"
task_by_id (t ∷ ts) id = if t.id == id then ok t else task_by_id ts id

unfoldable pub task_context : List Entry → String → Result Entry
task_context tasks id = do throw_if (not (is_task_id id)) "Invalid task ID"; task_by_id tasks id

abbrev pub action_files : String → Option (List String)
action_files action =
    if action == "task"
    then some ("TASK.md" ∷ [])
    else if action == "plan"
    then some ("PLAN.md" ∷ [])
    else if action == "qa-plan"
    then some ("QA_PLAN.md" ∷ [])
    else if action == "review"
    then some ("REVIEW_RESULT.md" ∷ [])
    else if action == "qa-result"
    then some ("QA_RESULT.md" ∷ [])
    else if action == "handover"
    then some ("HANDOVER.md" ∷ [])
    else none

abbrev pub planning_files : List String
planning_files =
    "TASK.md" ∷ "PLAN.md" ∷ "QA_PLAN.md" ∷ "REVIEW_RESULT.md" ∷ "QA_RESULT.md" ∷ "HANDOVER.md" ∷ []

abbrev pub in_dir : String → List String → List String
in_dir dir files = map (λ file. dir ⧺ "/" ⧺ file) files

-- The rest of `allowedFor`, once the task's directory is known.
abbrev pub allowed_in : String → String → Result (List String)
allowed_in action dir =
    if action == "planning-gate"
    then ok ("backlog.yaml" ∷ in_dir dir planning_files)
    else elim (action_files action) [
      | some files ↦ ok (in_dir dir files)
      | none ↦
          if action == "task-start"
          then ok ("backlog.yaml" ∷ (dir ⧺ "/") ∷ [])
          else if action == "main-transition"
          then ok ("backlog.yaml" ∷ (dir ⧺ "/TASK.md") ∷ (dir ⧺ "/HANDOVER.md") ∷ [])
          else if action == "sync"
          then ok ("backlog.yaml" ∷ "wiki/" ∷ "viewer/index.html" ∷ "tasks/" ∷ [])
          else throw "Unknown evidence action: "
    ]

-- `allowedFor`; `manifest` says whether the bootstrap manifest exists.
unfoldable pub allowed_for : Bool → List Entry → String → String → Result (List String)
unfolding task_context task_by_id
allowed_for manifest tasks action id =
    if action == "bootstrap"
    then (if not (id == "TASK-0033") || not manifest
        then throw "bootstrap evidence action requires TASK-0033 and its validated manifest"
        else ok main_managed_paths)
    else if action == "task-start-rollback"
    then ok ("backlog.yaml" ∷ ("tasks/" ⧺ id ⧺ "-") ∷ [])
    else if action == "wiki"
    then ok ("wiki/semantic/" ∷ "wiki/decisions/" ∷ "wiki/ingestions/" ∷ "wiki/index.json" ∷ [])
    else (do task ← task_context tasks id; allowed_in action task.task_dir)

-- `completionAllowed` for the task's directory.
abbrev pub completion_allowed : String → List String
completion_allowed dir =
    ("backlog.yaml"
      ∷ in_dir dir
          ("TASK.md" ∷ "QA_PLAN.md" ∷ "REVIEW_RESULT.md" ∷ "QA_RESULT.md" ∷ "HANDOVER.md" ∷ []))
    ++ "wiki/" ∷ []
