-- ===== src/Lifecycle/Composite/Tests.antt =====
-- A pull request that is opened.
use kakesu.Prelude.{String, true, false, List, [], ◌∷◌, if◌then◌else◌, ◌==◌}
use kakesu.Work.Node.{Spawned}
use kakesu.Lifecycle.Fixtures.{candidate, told, world_of, task_text}
use kakesu.Lifecycle.Script.{World}
use kakesu.Lifecycle.Composite.{Args}

abbrev args : Args
args = record { task_id = "TASK-0042"; repo = "autotaker/kakesu"; dry_run = false }

abbrev answer : List String → Spawned
answer (command ∷ option ∷ range ∷ rest) =
    if command == "worktree"
    then told "worktree /r\nbranch refs/heads/main\n"
    else if command == "diff"
    then told "core/a.go\n"
    else if command == "merge-base"
    then told "b\n"
    else if command == "rev-list"
    then told "1\n"
    else told ""
answer (command ∷ option ∷ []) =
    if command == "branch"
    then told "main\n"
    else if option == "HEAD"
    then told "h\n"
    else told candidate
answer _ = told ""

abbrev world : World
world = world_of (λ past. answer) (λ path. true) task_text
