-- ===== src/Lifecycle/Evidence/Tests.antt =====
-- A commit of the wiki whose first push fails, and the theorems at it.
use kakesu.Prelude.{
  String, true, false, ◌≡◌, refl, some, List, [], ◌∷◌, if◌then◌else◌, ◌==◌, leb, starts_with,
  ends_with_char,
}
use kakesu.Js.{obj, end}
use kakesu.Result.{ok}
use kakesu.Work.Node.{Node, Spawned}
use kakesu.Lifecycle.Fixtures.{spawned, node_of, world_of}
use kakesu.Lifecycle.Script.{Event, World, exec}
use kakesu.Js.Trim.{trim_end, trim_start, is_space}
use kakesu.Scope.{allowed_for, matches}
use kakesu.Work.Texts.{split, strip, nonempty}
use kakesu.Check.Worktrees.{split_records}
use kakesu.Lifecycle.Script.{handle}
use kakesu.Lifecycle.Script.Laws.{is_push}
use kakesu.Lifecycle.Steps.{assert_main, main_in, rules_for, changed_files, sorted, distinct}
use kakesu.Lifecycle.Evidence.{
  Args, Outcome, with_lock, transaction, prepare, commit_files, publish, push_rounds, validated,
  evidence_commit,
}
use kakesu.Lifecycle.Evidence.Lock.{IsClean, evidence_commit-IsClean}
use kakesu.Lifecycle.Script.Pushes.{pushes}

abbrev node : Node
node = node_of (λ dir file. file) (λ text. obj end)

abbrev answer : List Event → List String → Spawned
answer past (command ∷ _) =
    if command == "branch"
    then spawned 0 "main\n"
    else if command == "worktree"
    then spawned 0 "worktree /r\nbranch refs/heads/main\n"
    else if command == "rev-parse"
    then spawned 0 "c\n"
    else if command == "diff"
    then spawned 0 "wiki/semantic/a.md\n"
    else if command == "push"
    then spawned (if leb 1 (pushes past) then 0 else 1) "rejected"
    else spawned 0 ""
answer past [] = spawned 0 ""

abbrev world : World
world = world_of answer (λ path. true) (λ path. "")

abbrev args : Args
args = record {
  root = "/r";
  action = "wiki";
  task_id = "TASK-0042";
  message = "wiki: a";
  push = true;
  validate = false;
  candidate_root = "/r";
  repo_root = "/r";
}

abbrev outcome : Outcome
outcome = record {
  commit = some "c";
  pushed = true;
  changed = "wiki/semantic/a.md" ∷ [];
  retries = some 1;
}

pushed_again : (exec world (evidence_commit node (λ rules. "[]") args) []).0 ≡ ok outcome
unfolding evidence_commit exec handle assert_main trim_end trim_start is_space main_in split strip
    rules_for allowed_for with_lock transaction prepare changed_files sorted distinct nonempty
    split_records commit_files publish push_rounds validated matches starts_with pushes is_push
    ends_with_char
pushed_again = refl

evidence_commit-IsClean_example :
    IsClean node (λ rules. "[]") args (exec world (evidence_commit node (λ rules. "[]") args) [])
evidence_commit-IsClean_example = evidence_commit-IsClean node (λ rules. "[]") args world
