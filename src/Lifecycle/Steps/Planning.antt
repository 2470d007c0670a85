-- ===== src/Lifecycle/Steps/Planning.antt =====
-- The planning gate of scripts/task/unified-lifecycle.mjs: `validatePlanningState` and
-- `fastForwardPlanningWorktree`.
use kakesu.Prelude.{String, Bool, not, ◌||◌, List, [], ◌∷◌, any, ◌==◌, if◌then◌else◌, ◌⧺◌}
use kakesu.Js.{Value, str, prop, strict_eq}
use kakesu.Result.{ok}
use kakesu.Scope.{matches}
use kakesu.Routing.Selection.{validate_dev_selection}
use kakesu.Work.Node.{Node}
use kakesu.Work.Documents.{resolve_inside}
use kakesu.Check.Values.{is, one_of}
use kakesu.Lifecycle.Script.{Script, ◌>>=◌, ◌>>◌, lift, guard}
use kakesu.Lifecycle.Steps.{
  git, file_exists, is_empty, contains, task_context, task_dir, parse_frontmatter, rules_for,
}

module _ (node : Node) where
  abbrev is_planning : Value → String → Bool
  is_planning task file = contains file (
      "backlog.yaml"
      ∷ (task_dir node task ⧺ "/TASK.md")
      ∷ (task_dir node task ⧺ "/PLAN.md")
      ∷ (task_dir node task ⧺ "/QA_PLAN.md")
      ∷ [])

  abbrev is_other : String → Value → Bool
  is_other id document = not (is id (prop "task_id" document))

  abbrev is_not_approved : String → String → Value → Value → Bool
  is_not_approved author role task document =
      not (is "approved" (prop "status" document))
      || not (strict_eq (prop "approved_by" document) (prop "main" (prop "assignees" task)))
      || not (strict_eq (prop author document) (prop role (prop "assignees" task)))

  -- The rules are read again for each file.
  unfoldable pub forbidden_files : String → String → List String → Script (List String)
  forbidden_files root id [] = lift (ok [])
  forbidden_files root id (file ∷ files) = do
    rules ← rules_for node root "planning-gate" id
    rest ← forbidden_files root id files
    lift (ok (if matches file rules then rest else file ∷ rest))

  -- `validatePlanningState`
  unfoldable pub validate_planning_state : String → String → List String → Script (Unit {0})
  validate_planning_state root id changed = do
    task ← task_context node root id
    guard (not (any (is_planning task) changed))
        "planning-gate requires a non-empty planning subset"
    forbidden ← forbidden_files root id changed
    guard (not (is_empty forbidden)) "planning-gate scope violation: "
    let at : String → String =
        λ file. node.path_join (node.path_join root (task_dir node task)) file
    plan ← parse_frontmatter node (at "PLAN.md")
    qa_plan ← parse_frontmatter node (at "QA_PLAN.md")
    task_file ← parse_frontmatter node (at "TASK.md")
    guard (is_other id plan || is_other id qa_plan || is_other id task_file)
        "planning-gate task identity mismatch"
    guard (is_not_approved "planner_agent" "planner" task plan)
        "planning-gate PLAN approval or role mismatch"
    guard (is_not_approved "qa_agent" "qa" task qa_plan)
        "planning-gate QA PLAN approval or role mismatch"
    profile ← lift (validate_dev_selection plan)
    guard (not (one_of ("dev" ∷ "plan" ∷ []) (prop "status" task)))
        "planning-gate backlog status is invalid"

  -- The worktree of a task, if its branch is checked out there.
  unfoldable pub recorded_worktree : String → String → Value → Script String
  recorded_worktree root id task = do
    worktree ← lift (resolve_inside node root (prop "worktree" task) (id ⧺ " worktree"))
    there ← file_exists worktree
    guard (not there) (id ⧺ ": planning-gate requires the recorded Task worktree")
    branch ← git worktree ("branch" ∷ "--show-current" ∷ [])
    guard (not (strict_eq (str branch) (prop "branch" task)))
        (id ⧺ ": planning-gate requires the recorded Task worktree")
    lift (ok worktree)

  -- `fastForwardPlanningWorktree`
  unfoldable pub fast_forward_planning_worktree : String → String → String → Script (Unit {0})
  fast_forward_planning_worktree root id commit = do
    task ← task_context node root id
    worktree ← recorded_worktree root id task
    status ← git worktree ("status" ∷ "--porcelain" ∷ [])
    guard (not (status == "")) (id ⧺ ": planning worktree must be clean before fast-forward")
    merged ← git worktree ("merge" ∷ "--ff-only" ∷ commit ∷ [])
    head ← git worktree ("rev-parse" ∷ "HEAD" ∷ [])
    guard (not (head == commit)) (id ⧺ ": planning worktree did not fast-forward")
