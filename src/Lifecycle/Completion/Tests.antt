-- ===== src/Lifecycle/Completion/Tests.antt =====
-- A completion that is merged and pushed, and the theorems at it.
use kakesu.Prelude.{String, true, List, [], ◌∷◌, if◌then◌else◌, ◌==◌, ◌⧺◌, ◌&&◌}
use kakesu.Work.Node.{Spawned}
use kakesu.Lifecycle.Fixtures.{candidate, told, task_node, world_of, task_text}
use kakesu.Lifecycle.Script.{World, exec}
use kakesu.Lifecycle.Completion.{Args}
use kakesu.Lifecycle.Completion.Gate.{completion_gate}
use kakesu.Lifecycle.Completion.Lock.{IsGuarded, completion_gate-IsGuarded}
use kakesu.Lifecycle.Completion.Pushes.{IsTold, completion_gate-IsTold}

abbrev args : Args
args = record {
  root = "/r";
  task_id = "TASK-0042";
  message = "task: complete TASK-0042";
  validate = true;
  push = true;
  pid = "7";
}

abbrev answer : List String → Spawned
answer (command ∷ option ∷ range ∷ rest) =
    if command == "worktree"
    then told "worktree /r\nbranch refs/heads/main\n"
    else if command == "diff" && range == ("b..." ⧺ candidate)
    then told "core/a.go\n"
    else if command == "merge-base"
    then told "b\n"
    else if command == "rev-list"
    then told "1\n"
    else told ""
answer (command ∷ option ∷ []) =
    if command == "branch"
    then told "main\n"
    else if option == "HEAD"
    then told "h\n"
    else told candidate
answer _ = told ""

abbrev world : World
world = world_of (λ past. answer) (λ path. true) task_text

completion_gate-IsGuarded_example :
    IsGuarded (exec world (completion_gate task_node (λ files. "[]") args) [])
completion_gate-IsGuarded_example = completion_gate-IsGuarded task_node (λ files. "[]") args world

completion_gate-IsTold_example :
    IsTold "/r" (exec world (completion_gate task_node (λ files. "[]") args) [])
completion_gate-IsTold_example = completion_gate-IsTold task_node (λ files. "[]") args world
