-- ===== src/Scope/Tests.antt =====
-- Rules and files of a task, and the theorems at them.
use kakesu.Prelude.{String, true, false, ◌≡◌, refl, List, [], ◌∷◌, starts_with, ends_with_char}
use kakesu.Result.{ok, throw}
use kakesu.Scope.{
  is_main_managed_path, matches, matches_allowed, directory_glob, is_task_id, Entry, allowed_for,
}
use kakesu.Scope.Laws.{allowed_for-managed}
use kakesu.Scope.Hook.{hook-allowed_for}

abbrev tasks : List Entry
tasks = record { id = "TASK-0007"; task_dir = "tasks/TASK-0007-store" } ∷ []

abbrev plan_rules : List String
plan_rules = "tasks/TASK-0007-store/PLAN.md" ∷ []

plan_allowed : allowed_for false tasks "plan" "TASK-0007" ≡ ok plan_rules
unfolding allowed_for is_task_id starts_with
plan_allowed = refl

unknown_action : allowed_for true tasks "deploy" "TASK-0007" ≡ throw "Unknown evidence action: "
unfolding allowed_for is_task_id starts_with
unknown_action = refl

bad_id : allowed_for true tasks "plan" "TASK-7" ≡ throw "Invalid task ID"
unfolding allowed_for is_task_id starts_with
bad_id = refl

globs :
    (matches_allowed "docs/a/b.md" ("docs/**" ∷ []) ≡ true)
    × (matches "docs/a/b.md" ("docs/**" ∷ []) ≡ false)
unfolding matches_allowed matches directory_glob starts_with ends_with_char
globs = (refl, refl)

allowed_for-managed_example : is_main_managed_path "tasks/TASK-0007-store/PLAN.md" ≡ true
unfolding matches starts_with ends_with_char
allowed_for-managed_example =
    allowed_for-managed false tasks "plan" "TASK-0007" plan_rules "tasks/TASK-0007-store/PLAN.md"
      (refl, tt) plan_allowed refl

hook-allowed_for_example :
    matches_allowed "core/main.go" plan_rules ≡ matches "core/main.go" plan_rules
hook-allowed_for_example =
    hook-allowed_for false tasks "plan" "TASK-0007" "core/main.go" plan_rules plan_allowed
