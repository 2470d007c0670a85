-- ===== src/Lifecycle/Sync/Tests.antt =====
-- The cleanup of one closed task.
use kakesu.Prelude.{String, true, false, List, [], ◌∷◌, ◌≡◌, if◌then◌else◌, ◌==◌}
use kakesu.Js.{Value, str, arr, obj, field, end, nil, cons}
use kakesu.Work.Node.{Node, Spawned}
use kakesu.Lifecycle.Script.{World, exec}
use kakesu.Lifecycle.Fixtures.{told, node_of, world_of}
use kakesu.Lifecycle.Sync.{Args, sync_main}
use kakesu.Lifecycle.Sync.Safe.{is_safe}
use kakesu.Lifecycle.Sync.Merged.{sync_main-IsSafe}

abbrev backlog : Value
backlog = obj (
    field "tasks"
      (arr (
        cons
          (obj (
            field "id" (str "TASK-0042") (
              field "status" (str "done") (
                field "branch" (str "task/TASK-0042-a")
                  (field "worktree" (str "worktrees/TASK-0042-a") end)))))
          nil))
      end)

-- Every other path leads to one directory below the root.
abbrev node : Node
node = record (node_of (λ dir file. file) (λ text. backlog)) {
  is_absolute = λ path. false;
  resolve = λ root path. if path == "/r" then path else "/r/w";
}

abbrev args : Args
args = record {
  root = "/r";
  repo = "autotaker/kakesu";
  fast = false;
  push = true;
  repo_root = "/r";
}

abbrev answer : List String → Spawned
answer (command ∷ rest) =
    if command == "run"
    then told "success\n"
    else if command == "worktree"
    then told "worktree /r\nbranch refs/heads/main\n"
    else if command == "branch"
    then told "main\n"
    else told ""
answer [] = told ""

abbrev world : World
world = world_of (λ past. answer) (λ path. true) (λ path. "")

sync_main-IsSafe_example :
    is_safe "/r" (exec world (sync_main node (λ files. "[]") (λ v. "") args) []).1 ≡ true
sync_main-IsSafe_example = sync_main-IsSafe node (λ files. "[]") (λ v. "") args world
