-- ===== src/Lifecycle/Completion/Lock.antt =====
-- `completionGate` changes the repository under the lock only, but for its push, and gives the lock
-- back.
use kakesu.Prelude.{String, Bool, ◌||◌, List, [], or_left}
use kakesu.Result.{Result}
use kakesu.Work.Node.{Node}
use kakesu.Lifecycle.Script.{Script, Request, Event, World, exec, is_reading, is_lock}
use kakesu.Lifecycle.Script.Laws.{
  is_cleanup, is_push, is_remote_free, plain-free, is_free, Only, Only-map,
}
use kakesu.Lifecycle.Script.Careful.{IsSettled}
use kakesu.Lifecycle.Script.Alone.{Alone, Alone-quiet, Alone-run, alone_rules}
use kakesu.Lifecycle.Completion.{Args, Ready, Completed, prepare_completion}
use kakesu.Lifecycle.Completion.Gate.{transact, roll_back_merge, reconcile, completion_gate}
use kakesu.Lifecycle.Completion.Requests.{
  prepare_completion-Only, transact-Only, roll_back_merge-Only,
}

-- A request that changes nothing, or a push.
abbrev pub is_remote : Request → Bool
is_remote q = is_reading q || is_push q

reading-remote : {A : Type 0} (m : Script A) → Only is_reading m → Only is_remote m
reading-remote m h = Only-map m (λ q e. or_left (is_reading q) (is_push q) e) h

-- All that was not quiet was done under the lock, and the lock is free.
abbrev pub IsGuarded : {A : Type 0} → Result A × List Event → Type 0
IsGuarded run = IsSettled is_remote run

module _ (node : Node) (json : List String → String) (args : Args) where
  roll_back_merge-free :
      (ready : Ready) (commit : String) → Only is_free (roll_back_merge node json args ready commit)
  roll_back_merge-free ready commit =
      plain-free _ (roll_back_merge-Only node json args ready commit)

  transact-free : (ready : Ready) → Only is_free (transact node json args ready)
  transact-free ready = plain-free _ (transact-Only node json args ready)

  prepare_completion-Alone : Alone is_remote (prepare_completion node json args)
  prepare_completion-Alone =
      Alone-quiet _ is_remote_free (reading-remote _ (prepare_completion-Only node json args))

  reconcile-Alone :
      (ready : Ready) (done : Completed) → Alone is_remote (reconcile node json args ready done)
  unfolding reconcile is_reading is_push is_lock is_cleanup
  reconcile-Alone ready done = search (alone_rules, roll_back_merge-free) depth 20

  completion_gate-Alone : Alone is_remote (completion_gate node json args)
  unfolding completion_gate is_reading is_push is_lock is_cleanup
  completion_gate-Alone =
      search (alone_rules, prepare_completion-Alone, transact-free, reconcile-Alone) depth 20

  -- Whatever the answers are, `completionGate` changes nothing unless it holds the lock, but for its
  -- push; it takes the lock once at a time, and does not hold it at the end.
  pub completion_gate-IsGuarded :
      (world : World) → IsGuarded (exec world (completion_gate node json args) [])
  completion_gate-IsGuarded world = Alone-run is_remote completion_gate-Alone world
