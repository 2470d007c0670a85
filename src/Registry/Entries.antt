-- ===== src/Registry/Entries.antt =====
-- The checks of scripts/task/validate-work.mjs on the epics and the tasks of the backlog. The script
-- collects errors; what throws outside of a `try` ends it. An id that is no text is reported
-- before the graph of dependencies is searched, in which ids are texts.
use kakesu.Prelude.{
  ℕ, String, Bool, ◌||◌, ◌&&◌, not, Option, none, some, List, [], ◌∷◌, any, map, ◌⧺◌,
}
use kakesu.Js.{Value, str, num, pos, arr, nil, prop, to_text, truthy, or_else, strict_eq}
use kakesu.Result.{Result, ok, throw}
use kakesu.Routing.Selection.{elements}
use kakesu.Backlog.Cycle.{Task, find_cycles}
use kakesu.Work.Texts.{shaped, join}
use kakesu.Work.Node.{Node}
use kakesu.Work.Documents.{resolve_inside, readable}
use kakesu.Check.Findings.{Check, ◌>>=◌, ◌>>◌, pure, lift, reports, attempt, report_all, each}
use kakesu.Check.Values.{is, one_of, text_or_empty, about}
use kakesu.Check.Phases.{task_statuses}
use kakesu.Check.Task.{check_task}

-- `ids.has(v)`
unfoldable pub has : List Value → Value → Bool
has ids v = any (λ w. strict_eq w v) ids

-- What `for … of v ?? []` runs through.
abbrev pub listed : Value → Result (List Value)
listed v = elements (or_else v (arr nil))

abbrev pub is_date : Value → Bool
is_date v = shaped "####-##-##" (text_or_empty v)

unfoldable pub epic_reports : List Value → Value → List (Bool × String)
epic_reports seen epic =
    let id = prop "id" epic in
    (not (shaped "EPIC-###" (text_or_empty id)), "invalid epic ID: " ⧺ to_text id)
    ∷ (has seen id, "duplicate epic ID: " ⧺ to_text id)
    ∷ (
      not (truthy (prop "title" epic))
          || not (is_date (prop "target_start" epic))
          || not (is_date (prop "target_end" epic)),
      about (to_text id) "title, target_start, and target_end are required",
    )
    ∷ []

-- The loop over the epics, with the ids so far.
unfoldable pub check_epics : List Value → List Value → Check (List Value)
check_epics seen [] = pure seen
check_epics seen (epic ∷ epics) = do
  lift (readable epic "id")
  reports (epic_reports seen epic)
  check_epics (prop "id" epic ∷ seen) epics

abbrev pub task_types : List String
task_types = "feature" ∷ "bug" ∷ "chore" ∷ "research" ∷ []

abbrev pub priorities : List String
priorities = "P0" ∷ "P1" ∷ "P2" ∷ "P3" ∷ []

abbrev pub point_scale : List ℕ
point_scale = 1 ∷ 2 ∷ 3 ∷ 5 ∷ 8 ∷ 13 ∷ []

unfoldable pub entry_reports : List Value → List Value → Value → List (Bool × String)
entry_reports epic_ids seen task =
    let id = prop "id" task in
    let name = to_text id in
    (not (shaped "TASK-####" (text_or_empty id)), "invalid task ID: " ⧺ name)
    ∷ (has seen id, "duplicate task ID: " ⧺ name)
    ∷ (
      not (has epic_ids (prop "epic" task)),
      about name ("unknown epic " ⧺ to_text (prop "epic" task)),
    )
    ∷ (
      not (one_of task_statuses (prop "status" task)),
      about name ("invalid status " ⧺ to_text (prop "status" task)),
    )
    ∷ (
      not (one_of task_types (prop "type" task)),
      about name ("invalid type " ⧺ to_text (prop "type" task)),
    )
    ∷ (
      not (one_of priorities (prop "priority" task)),
      about name ("invalid priority " ⧺ to_text (prop "priority" task)),
    )
    ∷ (
      not (any (λ n. strict_eq (num (pos n)) (prop "estimate_points" task)) point_scale),
      about name ("invalid estimate_points " ⧺ to_text (prop "estimate_points" task)),
    )
    ∷ (
      is "bug" (prop "type" task) && not (truthy (prop "origin_task" task)),
      about name "bug requires origin_task",
    )
    ∷ (
      truthy (prop "bootstrap_exception" task) && not (is "TASK-0001" id),
      about name "bootstrap_exception is reserved for TASK-0001",
    )
    ∷ []

unfoldable pub dependency_reports : List Value → Value → List Value → List (Bool × String)
dependency_reports ids id [] = []
dependency_reports ids id (d ∷ ds) =
    (not (has ids d), about (to_text id) ("unknown dependency " ⧺ to_text d))
    ∷ (strict_eq d id, about (to_text id) "task cannot depend on itself")
    ∷ dependency_reports ids id ds

-- The graph in which `visit` searches.
abbrev texts_of : Result (List Value) → Option (List String)
texts_of (ok ds) = some (map to_text ds)
texts_of (throw _) = none

abbrev pub task_of : Value → Task
task_of task = record {
  id = to_text (prop "id" task);
  depends_on = texts_of (listed (prop "depends_on" task));
}

abbrev cycle_message : List String → String
cycle_message chain = "dependency cycle: " ⧺ join " -> " chain

unfoldable pub cycle_messages : List Value → List String
cycle_messages tasks = elim (find_cycles (map task_of tasks)) [
  | some s ↦ map cycle_message s.cycles
  | none ↦ []
]

module _ (node : Node) (root : String) where
  -- `resolveInside(root, task.task_dir, …)` in its `try`.
  abbrev pub task_dir_of : Value → Result (Unit {0})
  task_dir_of task = elim (readable task "task_dir") [
    | throw e ↦ throw e
    | ok _ ↦
        elim (resolve_inside node root (prop "task_dir" task)
          (to_text (prop "id" task) ⧺ " task_dir")) [ throw e ↦ throw e | ok _ ↦ ok tt ]
  ]

  -- The first loop over the tasks.
  unfoldable pub check_entries : List Value → List Value → List Value → Check (List Value)
  check_entries epic_ids seen [] = pure seen
  check_entries epic_ids seen (task ∷ tasks) = do
    attempt (λ e. e) (task_dir_of task)
    lift (readable task "id")
    reports (entry_reports epic_ids seen task)
    check_entries epic_ids (prop "id" task ∷ seen) tasks

  -- `checkTask(root, backlog, task.id)`
  abbrev pub task_errors : Value → Value → List String
  task_errors backlog (str id) = check_task node root backlog id "full"
  task_errors backlog id = "Invalid task ID: " ∷ []

  -- The body of the second loop.
  unfoldable pub check_dependencies : Value → List Value → Value → Check (Unit {0})
  check_dependencies backlog ids task = do
    dependencies ← lift (listed (prop "depends_on" task))
    reports (dependency_reports ids (prop "id" task) dependencies)
    report_all (task_errors backlog (prop "id" task))

  -- From the loop over the epics to the search for cycles.
  unfoldable pub check_backlog : Value → Check (Unit {0})
  check_backlog backlog = do
    epics ← lift (listed (prop "epics" backlog))
    epic_ids ← check_epics [] epics
    tasks ← lift (listed (prop "tasks" backlog))
    ids ← check_entries epic_ids [] tasks
    each (check_dependencies backlog ids) tasks
    report_all (cycle_messages tasks)
