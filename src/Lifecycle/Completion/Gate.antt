-- ===== src/Lifecycle/Completion/Gate.antt =====
-- The transaction of `completionGate`: the merge, its push, and how both are taken back.
use kakesu.Prelude.{
  String, Bool, true, false, not, ◌||◌, none, some, List, [], ◌∷◌, ◌++◌, all, ◌==◌, if◌then◌else◌,
  ◌⧺◌,
}
use kakesu.Result.{Result, ok, throw}
use kakesu.Scope.{matches}
use kakesu.Work.Node.{Node, Spawned}
use kakesu.Lifecycle.Script.{
  Script, perform, finish, digest, ◌>>=◌, ◌>>◌, lift, guard, handle, only_if, under,
}
use kakesu.Lifecycle.Steps.{
  git, git_with, output, file_exists, lines, changed_files, contains, distinct, is_empty,
}
use kakesu.Lifecycle.Steps.Validation.{validate_operations}
use kakesu.Lifecycle.Evidence.{is_failure}
use kakesu.Lifecycle.Snapshot.{
  is_saved, delete, place_of, restore_bytes, remove_unknown_untracked, restore_index,
}
use kakesu.Lifecycle.Completion.{Args, Ready, Completed, remote_head, is_at, prepare_completion}

module _ (node : Node) (json : List String → String) (args : Args) where
  unfoldable pub commit_merge : Ready → String → Script String
  commit_merge ready d = git_with args.root ("commit" ∷ "-m" ∷ args.message ∷ []) (
      ("WORK_REPO_LOCK_HELD", "1")
      ∷ ("WORK_PARENT_COMMIT", "1")
      ∷ ("WORK_ACTION", "completion-gate")
      ∷ ("WORK_ALLOWED_PATHS", json (distinct (ready.allowed ++ ready.product)))
      ∷ ("WORK_VALIDATED_DIGEST", d)
      ∷ [])

  -- The body of the `try`.
  unfoldable pub merge_candidate : Ready → Script Completed
  merge_candidate ready = do
    merged ← git args.root ("merge" ∷ "--no-ff" ∷ "--no-commit" ∷ ready.candidate ∷ [])
    merge_head ← git args.root ("rev-parse" ∷ "MERGE_HEAD" ∷ [])
    guard (not (merge_head == ready.candidate)) "completion merge second parent mismatch"
    changed ← changed_files args.root
    guard (not (all (λ file. matches file ready.allowed || contains file ready.product) changed))
        "completion scope violation: "
    d ← perform (digest args.root) (λ r. finish r)
    only_if args.validate (validate_operations node args.root "handover" args.task_id args.root)
    unstaged ← git args.root ("diff" ∷ "--name-only" ∷ "--diff-filter=ACMRD" ∷ [])
    only_if (not (is_empty (lines unstaged)))
        (do added ← git args.root ("add" ∷ "-A" ∷ "--" ∷ lines unstaged); lift (ok tt))
    committed ← commit_merge ready d
    commit ← git args.root ("rev-parse" ∷ "HEAD" ∷ [])
    lift (
        ok (record {
          commit = commit;
          candidate = ready.candidate;
          changed = changed;
          pushed = false;
          retries = none;
          reconciled = false;
        }))

  -- The body of the `catch`.
  unfoldable pub abort_merge : Ready → Script (Unit {0})
  abort_merge ready = do
    aborted ← output args.root ("merge" ∷ "--abort" ∷ [])
    restore_bytes node args.root ready.snapshot
    remove_unknown_untracked node args.root
        (λ file. is_saved ready.snapshot file || not (matches file ready.allowed))
    reset ← output args.root ("reset" ∷ "--mixed" ∷ "HEAD" ∷ [])
    restore_index node args.root args.pid ready.index

  abbrev pub merged_or_aborted : Ready → Result Completed → Script Completed
  merged_or_aborted ready (ok done) = finish (ok done)
  merged_or_aborted ready (throw e) = do
    abort_merge ready
    finish (throw (e ⧺ "; completion transaction aborted"))

  unfoldable pub transact : Ready → Script Completed
  transact ready = handle (merge_candidate ready) (merged_or_aborted ready)

  -- A product file as it was before the merge.
  unfoldable pub restore_product : Ready → List String → Script (Unit {0})
  restore_product ready [] = lift (ok tt)
  restore_product ready (file ∷ files) = do
    there ← output args.root ("cat-file" ∷ "-e" ∷ (ready.pre_head ⧺ ":" ⧺ file) ∷ [])
    if is_failure there
        then (do
          left ← file_exists (place_of node args.root file)
          only_if left (delete (place_of node args.root file)))
        else (do
          restored ←
              output args.root
                ("restore" ∷ "--source" ∷ ready.pre_head ∷ "--worktree" ∷ "--" ∷ file ∷ [])
          lift (ok tt))
    restore_product ready files

  abbrev is_dirty : String → String → Script Bool
  is_dirty commit head =
      if head == commit
      then (do
        status ← git args.root ("status" ∷ "--porcelain" ∷ [])
        lift (ok (not (status == ""))))
      else lift (ok true)

  -- The merge is taken back once it could not be pushed.
  unfoldable pub roll_back_merge : Ready → String → Script (Unit {0})
  roll_back_merge ready commit = do
    head ← git args.root ("rev-parse" ∷ "HEAD" ∷ [])
    dirty ← is_dirty commit head
    guard dirty
        "Completion merge push failed; reconciliation required before rollback (local merge="
    reset ← output args.root ("reset" ∷ "--mixed" ∷ ready.pre_head ∷ [])
    restore_product ready ready.product
    restore_bytes node args.root ready.snapshot
    remove_unknown_untracked node args.root (is_saved ready.snapshot)
    restore_index node args.root args.pid ready.index

  abbrev pushed_as : Bool → Completed → Completed
  pushed_as reconciled done = record {
    commit = done.commit;
    candidate = done.candidate;
    changed = done.changed;
    pushed = true;
    retries = some 0;
    reconciled = reconciled;
  }

  -- What a push that failed leads to.
  unfoldable pub reconcile : Ready → Completed → Script Completed
  reconcile ready done = do
    remote ← output args.root ("ls-remote" ∷ "origin" ∷ "refs/heads/main" ∷ [])
    if is_at done.commit (remote_head remote) then lift (ok (pushed_as true done)) else (do
      guard (not (is_at ready.pre_head (remote_head remote)))
          "Completion merge push failed; reconciliation required (remote main="
      under args.root (roll_back_merge ready done.commit)
      lift (throw "Completion merge push failed; remote main unchanged at "))

  abbrev pub after_push : Ready → Completed → Spawned → Script Completed
  after_push ready done result =
      if is_failure result then reconcile ready done else lift (ok (pushed_as false done))

  abbrev pub push_merge : Ready → Completed → Script Completed
  push_merge ready done = do
    result ← output args.root ("push" ∷ "origin" ∷ "HEAD:main" ∷ [])
    after_push ready done result

  abbrev pub publish_merge : Ready → Completed → Script Completed
  publish_merge ready done = if args.push then push_merge ready done else lift (ok done)

  -- `completionGate`
  unfoldable pub completion_gate : Script Completed
  completion_gate = do
    ready ← prepare_completion node json args
    done ← under args.root (transact ready)
    publish_merge ready done
