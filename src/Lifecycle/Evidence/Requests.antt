-- ===== src/Lifecycle/Evidence/Requests.antt =====
-- The parts of `evidenceCommit` neither take nor release the lock, and push in the loop only.
use kakesu.Prelude.{ℕ, zero, suc, String, Option, some, none, List}
use kakesu.Result.{Result, ok, throw}
use kakesu.Work.Node.{Node}
use kakesu.Lifecycle.Script.{is_lock}
use kakesu.Lifecycle.Script.Laws.{
  is_cleanup, Only, ends, Only-handle, Only-then, is_free, is_plain, is_push, plain-free, requests,
  reading-plain,
}
use kakesu.Lifecycle.Steps.Requests.{
  changed_files-Only, task_context-Only, validate_planning_state-Only, recorded_worktree-Only,
  fast_forward_planning_worktree-Only, validate_operations-Only, validate_evidence_action-Only,
}
use kakesu.Lifecycle.Evidence.{
  Args, Outcome, Prepared, prepare, validated, prepared, published, committed, commit_files,
  push_rounds, next_round, publish, roll_back, reset_worktree, transaction,
}

module _ (node : Node) (json : List String → String) (args : Args) where
  pub validated-Only : (changed : List String) → Only is_plain (validated node json args changed)
  unfolding validated is_lock is_cleanup is_push
  validated-Only changed =
      search
        (
          requests, reading-plain, task_context-Only, recorded_worktree-Only,
          validate_operations-Only,
        )
        depth 40 fits 4000

  pub prepare-Only : (rules : List String) → Only is_plain (prepare node json args rules)
  unfolding prepare is_lock is_cleanup is_push
  prepare-Only rules =
      search
        (
          requests, Only-then, reading-plain, changed_files-Only, validate_planning_state-Only,
          validated-Only,
        )
        depth 40 fits 4000

  pub commit_files-Only :
      (rules : List String) (p : Prepared) → Only is_plain (commit_files node json args rules p)
  unfolding commit_files is_lock is_cleanup is_push
  commit_files-Only rules p = search (requests) depth 20

  pub next_round-Only : Only is_plain (next_round node json args)
  unfolding is_lock is_cleanup is_push
  next_round-Only = search (requests, validate_evidence_action-Only) depth 40 fits 4000

  pub push_rounds-Only :
      (changed : List String) (left retry : ℕ) (commit : String)
      → Only is_free (push_rounds node json args changed left retry commit)
  unfolding push_rounds is_lock is_cleanup
  push_rounds-Only changed zero retry commit = search (requests) depth 20
  push_rounds-Only changed (suc left) retry commit =
      search (requests, plain-free, next_round-Only, push_rounds-Only changed left) depth 40 fits
        4000

  pub publish-Only : (p : Prepared) → Only is_free (publish node json args p)
  unfolding publish is_lock is_cleanup
  publish-Only p =
      search (requests, plain-free, fast_forward_planning_worktree-Only, push_rounds-Only) depth 20

  pub reset_worktree-Only :
      (o : Option (String × String)) → Only is_plain (reset_worktree node json args o)
  unfolding is_lock is_cleanup is_push
  reset_worktree-Only none = search (requests)
  reset_worktree-Only (some w) = search (requests)

  pub roll_back-Only :
      (before : String) (p : Prepared) → Only is_plain (roll_back node json args before p)
  unfolding roll_back is_lock is_cleanup is_push
  roll_back-Only before p = search (requests, reset_worktree-Only) depth 20

  published-Only :
      (before : String) (p : Prepared) (r : Result Outcome)
      → Only is_free (published node json args before p r)
  published-Only before p (ok o) = ends
  published-Only before p (throw e) = search (requests, plain-free, roll_back-Only)

  committed-Only :
      (before : String) (p : Prepared) (r : Result (Unit {0}))
      → Only is_free (committed node json args before p r)
  committed-Only before p (ok _) = Only-handle _ (publish-Only p) (published-Only before p)
  committed-Only before p (throw e) = ends

  prepared-Only :
      (rules : List String) (before : String) (r : Result (Option Prepared))
      → Only is_free (prepared node json args rules before r)
  prepared-Only rules before (throw e) = ends
  prepared-Only rules before (ok none) = ends
  prepared-Only rules before (ok (some p)) =
      Only-handle _ (plain-free _ (commit_files-Only rules p)) (committed-Only before p)

  pub transaction-Only :
      (rules : List String) (before : String)
      → Only is_free (transaction node json args rules before)
  unfolding transaction
  transaction-Only rules before =
      Only-handle _ (plain-free _ (prepare-Only rules)) (prepared-Only rules before)
