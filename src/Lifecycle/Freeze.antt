-- ===== src/Lifecycle/Freeze.antt =====
-- `candidateCommit` of scripts/task/unified-lifecycle.mjs: the one commit of a task's product.
pub mod Lock
mod Tests
use kakesu.Prelude.{
  String, Bool, true, false, not, ◌&&◌, Option, none, some, List, [], ◌∷◌, any, ◌==◌, if◌then◌else◌,
  ◌⧺◌,
}
use kakesu.Js.{Value, str, prop, to_text, strict_eq}
use kakesu.Js.Trim.{trim}
use kakesu.Result.{Result, ok, throw}
use kakesu.Scope.{is_main_managed_path}
use kakesu.Work.Texts.{join, nonempty}
use kakesu.Work.Node.{Node, Spawned}
use kakesu.Work.Documents.{resolve_inside}
use kakesu.Lifecycle.Script.{
  Script, perform, finish, spawn, digest, ◌>>=◌, ◌>>◌, lift, guard, handle, under,
}
use kakesu.Lifecycle.Steps.{
  git, git_with, output, file_exists, changed_files, is_empty, task_context, assert_main,
}
use kakesu.Lifecycle.Evidence.{is_failure}

pub record Args : Type 0 where
  pub root : String
  pub task_id : String
  pub candidate_root : Option String
  pub message : String

pub record Candidate : Type 0 where
  pub commit : String
  pub base : String
  pub changed : List String

-- Names of files have no NUL, by which the program joins them to compare.
unfoldable pub same_files : List String → List String → Bool
same_files [] [] = true
same_files (f ∷ fs) (g ∷ gs) = f == g && same_files fs gs
same_files _ _ = false

abbrev or_failed : String → String
or_failed text = if text == "" then "make check failed" else text

abbrev diagnostics : Spawned → String
diagnostics r = or_failed (trim (join "\n" (nonempty (r.stderr ∷ r.stdout ∷ []))))

module _ (node : Node) (json : List String → String) (args : Args) where
  abbrev branch_of : Value → String
  branch_of task = to_text (prop "branch" task)

  abbrev bytes : String → Script String
  bytes worktree = perform (digest worktree) (λ d. finish d)

  -- `candidatePaths`
  unfoldable pub candidate_paths : Value → Script String
  candidate_paths task = do
    worktree ← lift (
        resolve_inside node args.root (prop "worktree" task)
          (to_text (prop "id" task) ⧺ " candidate worktree"))
    there ← file_exists worktree
    guard (not there) (to_text (prop "id" task) ⧺ ": candidate worktree is missing")
    branch ← git worktree ("branch" ∷ "--show-current" ∷ [])
    guard (not (strict_eq (str branch) (prop "branch" task)))
        (to_text (prop "id" task) ⧺ ": candidate worktree branch mismatch")
    lift (ok worktree)

  abbrev pub worktree_of : Option String → Value → Script String
  worktree_of (some place) task = lift (ok (node.resolve "/" place))
  worktree_of none task = candidate_paths task

  -- The commits of the branch, by the text of their number.
  abbrev count_of : String → String → Script String
  count_of base head = git args.root ("rev-list" ∷ "--count" ∷ (base ⧺ ".." ⧺ head) ∷ [])

  -- What must hold before the quality run: the base and the changed files.
  unfoldable pub check_worktree : Value → String → Script (String × List String)
  check_worktree task worktree = do
    branch ← git worktree ("branch" ∷ "--show-current" ∷ [])
    guard (not (strict_eq (str branch) (prop "branch" task)))
        "candidate commit requires the Task branch"
    base ← git args.root ("merge-base" ∷ "main" ∷ branch_of task ∷ [])
    prior ← count_of base (branch_of task)
    guard (not (prior == "0")) "candidate branch must contain only the planning commit before DEV"
    changed ← changed_files worktree
    guard (is_empty changed) "candidate commit requires non-empty product changes"
    guard (any is_main_managed_path changed) "candidate commit contains main-managed paths: "
    lift (ok (base, changed))

  -- The quality run, which must leave the changed files as they were; the result is their digest.
  unfoldable pub make_check : String → List String → Script String
  make_check worktree changed = do
    before ← bytes worktree
    check ← perform (spawn worktree "make" ("check" ∷ []) []) (λ r. finish (ok r))
    guard (is_failure check) (diagnostics check)
    now ← changed_files worktree
    guard (not (same_files now changed)) "make check changed the candidate working set"
    after ← bytes worktree
    guard (not (after == before)) "make check changed candidate bytes"
    lift (ok before)

  unfoldable pub commit_candidate : String → List String → String → Script String
  commit_candidate worktree changed d = git_with worktree ("commit" ∷ "-m" ∷ args.message ∷ []) (
      ("WORK_REPO_LOCK_HELD", "1")
      ∷ ("WORK_PARENT_COMMIT", "1")
      ∷ ("WORK_ACTION", "candidate-commit")
      ∷ ("WORK_ALLOWED_PATHS", json changed)
      ∷ ("WORK_VALIDATED_DIGEST", d)
      ∷ [])

  unfoldable pub check_single : String → String → List String → Script Candidate
  check_single worktree base changed = do
    commit ← git worktree ("rev-parse" ∷ "HEAD" ∷ [])
    count ← count_of base commit
    guard (not (count == "1")) "candidate must be one commit after planning"
    lift (ok (record { commit = commit; base = base; changed = changed }))

  -- The `catch` once the commit has been made.
  abbrev pub checked : String → String → Result Candidate → Script Candidate
  checked worktree base (ok c) = finish (ok c)
  checked worktree base (throw e) = do
    result ← output worktree ("reset" ∷ "--mixed" ∷ base ∷ [])
    finish (throw e)

  -- The body of the outer `try`.
  unfoldable pub freeze : Value → String → Script Candidate
  freeze task worktree = do
    (base, changed) ← check_worktree task worktree
    d ← make_check worktree changed
    added ← git worktree ("add" ∷ "--" ∷ changed)
    committed ← commit_candidate worktree changed d
    handle (check_single worktree base changed) (checked worktree base)

  -- Where the candidate is, before the lock is taken.
  unfoldable pub find_worktree : Script (Value × String)
  find_worktree = do
    assert_main node args.root
    task ← task_context node args.root args.task_id
    worktree ← worktree_of args.candidate_root task
    lift (ok (task, worktree))

  -- The `try` with its `finally`.
  abbrev pub freeze_locked : Value × String → Script Candidate
  freeze_locked (task, worktree) = under args.root (freeze task worktree)

  -- `candidateCommit`
  unfoldable pub candidate_commit : Script Candidate
  candidate_commit = find_worktree >>= freeze_locked
