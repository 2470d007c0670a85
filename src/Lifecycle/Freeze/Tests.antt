-- ===== src/Lifecycle/Freeze/Tests.antt =====
-- The commit of a candidate in a given worktree, and the theorem at it.
use kakesu.Prelude.{String, true, false, some, List, [], ◌∷◌, if◌then◌else◌, ◌==◌, Bool}
use kakesu.Js.{Value, str, arr, obj, field, end, nil, cons}
use kakesu.Work.Node.{Node, Spawned}
use kakesu.Lifecycle.Fixtures.{spawned, node_of, world_of}
use kakesu.Lifecycle.Script.{World, exec}
use kakesu.Lifecycle.Freeze.{Args, candidate_commit}
use kakesu.Lifecycle.Freeze.Lock.{IsReleased, candidate_commit-IsReleased}

-- The task's branch is main, which is what `git branch` answers everywhere.
abbrev backlog : Value
backlog = obj (
    field "tasks"
      (arr (cons (obj (field "id" (str "TASK-0042") (field "branch" (str "main") end))) nil)) end)

abbrev node : Node
node = node_of (λ dir file. file) (λ text. backlog)

abbrev args : Args
args = record {
  root = "/r";
  task_id = "TASK-0042";
  candidate_root = some "/r/worktrees/TASK-0042-a";
  message = "task: candidate";
}

abbrev answer : List String → Spawned
answer (command ∷ option ∷ rest) =
    if command == "branch"
    then spawned 0 "main\n"
    else if command == "worktree"
    then spawned 0 "worktree /r\nbranch refs/heads/main\n"
    else if command == "rev-parse"
    then spawned 0 "c\n"
    else if command == "merge-base"
    then spawned 0 "b\n"
    else if command == "rev-list"
    then spawned 0 (if is_last rest then "1\n" else "0\n")
    else if command == "diff"
    then spawned 0 "core/a.go\n"
    else spawned 0 ""
  where
    is_last : List String → Bool
    is_last (range ∷ []) = range == "b..c"
    is_last _ = false
answer _ = spawned 0 ""

abbrev world : World
world = world_of (λ past. answer) (λ path. true) (λ path. "")

candidate_commit-IsReleased_example :
    IsReleased node
      (λ files. "[]")
      args
      (exec world (candidate_commit node (λ files. "[]") args) [])
candidate_commit-IsReleased_example = candidate_commit-IsReleased node (λ files. "[]") args world
