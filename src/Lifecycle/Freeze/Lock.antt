-- ===== src/Lifecycle/Freeze/Lock.antt =====
-- `candidateCommit` changes the repository under the lock only, and gives the lock back.
use kakesu.Prelude.{String, true, false, ◌≡◌, none, some, List, [], Option}
use kakesu.Js.{Value}
use kakesu.Result.{Result, ok, throw}
use kakesu.Work.Node.{Node}
use kakesu.Lifecycle.Script.{Event, World, exec, held, is_proper, is_reading, is_lock}
use kakesu.Lifecycle.Script.Laws.{
  is_cleanup, Only, ends, Only-seq, Only-handle, is_free, reading-free, is_reading-free, requests,
}
use kakesu.Lifecycle.Script.Alone.{Alone, Alone-quiet, Alone-seq, Alone-under, Alone-run}
use kakesu.Lifecycle.Steps.Requests.{changed_files-Only, task_context-Only, assert_main-Only}
use kakesu.Lifecycle.Freeze.{
  Args, Candidate, candidate_paths, worktree_of, check_worktree, make_check, commit_candidate,
  check_single, checked, freeze, find_worktree, candidate_commit,
}

module _ (node : Node) (json : List String → String) (args : Args) where
  candidate_paths-Only : (task : Value) → Only is_reading (candidate_paths node json args task)
  unfolding candidate_paths is_reading
  candidate_paths-Only task = search (requests) depth 30

  check_worktree-Only :
      (task : Value) (worktree : String)
      → Only is_reading (check_worktree node json args task worktree)
  unfolding check_worktree is_reading
  check_worktree-Only task worktree = search (requests, changed_files-Only) depth 40 fits 4000

  make_check-Only :
      (worktree : String) (changed : List String)
      → Only is_free (make_check node json args worktree changed)
  unfolding make_check is_lock is_cleanup
  make_check-Only worktree changed =
      search (requests, reading-free, changed_files-Only) depth 40 fits 4000

  commit_candidate-Only :
      (worktree : String) (changed : List String) (d : String)
      → Only is_free (commit_candidate node json args worktree changed d)
  unfolding commit_candidate is_lock is_cleanup
  commit_candidate-Only worktree changed d = search (requests)

  check_single-Only :
      (worktree base : String) (changed : List String)
      → Only is_free (check_single node json args worktree base changed)
  unfolding check_single is_lock is_cleanup
  check_single-Only worktree base changed = search (requests) depth 20

  checked-Only :
      (worktree base : String) (r : Result Candidate)
      → Only is_free (checked node json args worktree base r)
  unfolding is_lock is_cleanup
  checked-Only worktree base (ok c) = ends
  checked-Only worktree base (throw e) = search (requests)

  freeze-Only :
      (task : Value) (worktree : String) → Only is_free (freeze node json args task worktree)
  unfolding freeze is_lock is_cleanup
  freeze-Only task worktree =
      Only-seq (reading-free _ (check_worktree-Only task worktree)) (λ (base, changed).
        Only-seq (make_check-Only worktree changed) (λ d. Only-seq (search (requests)) (λ added.
          Only-seq (commit_candidate-Only worktree changed d) (λ committed.
            Only-handle _ (check_single-Only worktree base changed) (checked-Only worktree base)))))

  worktree_of-Only :
      (o : Option String) (task : Value) → Only is_reading (worktree_of node json args o task)
  worktree_of-Only (some place) task = ends
  worktree_of-Only none task = candidate_paths-Only task

  find_worktree-Only : Only is_reading (find_worktree node json args)
  unfolding find_worktree
  find_worktree-Only = Only-seq (assert_main-Only node args.root) (λ u.
      Only-seq (task_context-Only node args.root args.task_id)
        (λ task. Only-seq (worktree_of-Only args.candidate_root task) (λ worktree. ends)))

  abbrev pub IsReleased : Result Candidate × List Event → Type 0
  IsReleased run = (is_proper run.1 ≡ true) × (held run.1 ≡ false)

  find_worktree-Alone : Alone is_reading (find_worktree node json args)
  find_worktree-Alone = Alone-quiet _ is_reading-free find_worktree-Only

  candidate_commit-Alone : Alone is_reading (candidate_commit node json args)
  unfolding candidate_commit
  candidate_commit-Alone =
      Alone-seq find_worktree-Alone
        (λ (task, worktree). Alone-under args.root (freeze-Only task worktree))

  -- Whatever the answers are, `candidateCommit` changes nothing unless it holds the lock, takes the
  -- lock once at a time, and does not hold it at the end.
  pub candidate_commit-IsReleased :
      (world : World) → IsReleased (exec world (candidate_commit node json args) [])
  candidate_commit-IsReleased world = Alone-run is_reading candidate_commit-Alone world
