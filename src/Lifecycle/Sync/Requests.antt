-- ===== src/Lifecycle/Sync/Requests.antt =====
-- Most of `syncMain` takes away neither worktrees nor branches.
use kakesu.Prelude.{String, Bool, not, refl, List, [], ◌∷◌, arith}
use kakesu.Js.{Value}
use kakesu.Result.{Result, ok, throw}
use kakesu.Work.Node.{Node}
use kakesu.Lifecycle.Script.{Script, Request}
use kakesu.Lifecycle.Script.Laws.{
  Only, ends, asks, is_cleanup, is_free, Only-map, Only-seq, Only-handle, reading-free, requests,
}
use kakesu.Lifecycle.Steps.Requests.{rules_for-Only, assert_main-Only, read_yaml-Only}
use kakesu.Lifecycle.Evidence.{with_lock, evidence_commit}
use kakesu.Lifecycle.Evidence
use kakesu.Lifecycle.Evidence.Requests.{transaction-Only}
use kakesu.Lifecycle.Sync.{Args, check_clean, check_closed, record_sync, update_main, close_tasks}

abbrev pub is_kept : Request → Bool
is_kept q = not (is_cleanup q)

pub free-kept : {A : Type 0} (m : Script A) → Only is_free m → Only is_kept m
free-kept m h = Only-map m (λ q e. ground arith) h

module _ (node : Node) (json : List String → String) where
  with_lock-Only :
      (args : Evidence.Args) (rules : List String) (r : Result (Unit {0}))
      → Only is_kept (with_lock node json args rules r)
  unfolding with_lock is_cleanup
  with_lock-Only args rules (throw e) = ends
  with_lock-Only args rules (ok u) = Only-seq (asks refl (λ a. ends)) (λ before.
      Only-handle _ (free-kept _ (transaction-Only node json args rules before))
        (λ r. asks refl (λ a. ends)))

  pub evidence_commit-Only : (args : Evidence.Args) → Only is_kept (evidence_commit node json args)
  unfolding evidence_commit is_cleanup
  evidence_commit-Only args =
      Only-seq (free-kept _ (reading-free _ (assert_main-Only node args.root))) (λ u.
        Only-seq
          (free-kept _ (reading-free _ (rules_for-Only node args.root args.action args.task_id)))
          (λ rules. asks refl (with_lock-Only args rules)))

module _ (node : Node) (json : List String → String) (yaml : Value → String) (args : Args) where
  pub record_sync-Only :
      (verb : String) (tasks : List Value) (backlog : Value)
      → Only is_kept (record_sync node json yaml args verb tasks backlog)
  unfolding record_sync is_cleanup
  record_sync-Only verb tasks backlog = search (requests, evidence_commit-Only) depth 20

  pub update_main-Only : Only is_kept (update_main node json yaml args)
  unfolding update_main is_cleanup
  update_main-Only = search (requests, free-kept, reading-free, assert_main-Only) depth 40 fits 4000

  pub check_clean-Only :
      (task : Value) (worktree : String)
      → Only is_kept (check_clean node json yaml args task worktree)
  unfolding check_clean is_cleanup
  check_clean-Only task worktree = search (requests) depth 20

  check_closed-Only : (tasks : List Value) → Only is_kept (check_closed node json yaml args tasks)
  unfolding check_closed
  check_closed-Only [] = ends
  check_closed-Only (task ∷ tasks) =
      search (requests, check_clean-Only, check_closed-Only tasks) depth 20

  pub close_tasks-Only : Only is_kept (close_tasks node json yaml args)
  unfolding close_tasks
  close_tasks-Only =
      search
        (requests, free-kept, reading-free, read_yaml-Only, check_closed-Only, record_sync-Only)
        depth 30
