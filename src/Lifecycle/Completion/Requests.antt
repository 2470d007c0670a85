-- ===== src/Lifecycle/Completion/Requests.antt =====
-- What precedes the lock of `completionGate` changes nothing; what is done under it leaves the lock
-- alone and pushes nothing.
use kakesu.Prelude.{String, List, [], ◌∷◌}
use kakesu.Js.{Value}
use kakesu.Result.{Result, ok, throw}
use kakesu.Work.Node.{Node}
use kakesu.Lifecycle.Script.{is_reading, is_lock}
use kakesu.Lifecycle.Script.Laws.{
  is_cleanup, Only, ends, is_plain, is_push, requests, reading-plain, Only-handle, Only-seq,
}
use kakesu.Lifecycle.Steps.Requests.{
  changed_files-Only, task_context-Only, assert_main-Only, parse_frontmatter-Only,
  validate_operations-Only,
}
use kakesu.Lifecycle.Snapshot.Requests.{
  snapshot_bytes-Only, restore_bytes-Only, remove_unknown_untracked-Only, restore_index-Only,
}
use kakesu.Lifecycle.Completion.{
  Args, Ready, Completed, find_candidate, find_product, check_safety, check_product, check_quality,
  save_evidence, prepare_completion,
}
use kakesu.Lifecycle.Completion.Gate.{
  commit_merge, merge_candidate, abort_merge, merged_or_aborted, transact, restore_product,
  roll_back_merge,
}

module _ (node : Node) (json : List String → String) (args : Args) where
  find_candidate-Only :
      (task handover : Value) → Only is_reading (find_candidate node json args task handover)
  unfolding find_candidate is_reading
  find_candidate-Only task handover = search (requests) depth 40 fits 4000

  find_product-Only :
      (task : Value) (candidate : String)
      → Only is_reading (find_product node json args task candidate)
  unfolding find_product is_reading
  find_product-Only task candidate = search (requests) depth 60 fits 4000

  check_safety-Only :
      (task handover qa_plan : Value)
      → Only is_reading (check_safety node json args task handover qa_plan)
  unfolding check_safety
  check_safety-Only task handover qa_plan = search (requests) depth 20

  check_product-Only :
      (task qa_plan : Value) → Only is_reading (check_product node json args task qa_plan)
  unfolding check_product is_reading
  check_product-Only task qa_plan = search (requests, parse_frontmatter-Only) depth 40 fits 4000

  check_quality-Only :
      (task handover : Value) → Only is_reading (check_quality node json args task handover)
  unfolding check_quality
  check_quality-Only task handover =
      search (requests, parse_frontmatter-Only, check_safety-Only, check_product-Only) depth 20

  save_evidence-Only :
      (task : Value) (candidate : String) (product : List String)
      → Only is_reading (save_evidence node json args task candidate product)
  unfolding save_evidence is_reading
  save_evidence-Only task candidate product =
      search (requests, task_context-Only, changed_files-Only, snapshot_bytes-Only) depth 40 fits
        4000

  pub prepare_completion-Only : Only is_reading (prepare_completion node json args)
  unfolding prepare_completion is_reading
  prepare_completion-Only =
      search
        (
          requests, assert_main-Only, task_context-Only, parse_frontmatter-Only,
          find_candidate-Only, find_product-Only, check_quality-Only, save_evidence-Only,
        )
        depth 60 fits 4000

  commit_merge-Only :
      (ready : Ready) (d : String) → Only is_plain (commit_merge node json args ready d)
  unfolding commit_merge is_lock is_cleanup is_push
  commit_merge-Only ready d = search (requests)

  merge_candidate-Only : (ready : Ready) → Only is_plain (merge_candidate node json args ready)
  unfolding merge_candidate is_lock is_cleanup is_push
  merge_candidate-Only ready =
      search
        (requests, reading-plain, changed_files-Only, validate_operations-Only, commit_merge-Only)
        depth 60 fits 8000

  abort_merge-Only : (ready : Ready) → Only is_plain (abort_merge node json args ready)
  unfolding abort_merge is_lock is_cleanup is_push
  abort_merge-Only ready =
      search (requests, restore_bytes-Only, remove_unknown_untracked-Only, restore_index-Only) depth
        40 fits 4000

  merged_or_aborted-Only :
      (ready : Ready) (r : Result Completed)
      → Only is_plain (merged_or_aborted node json args ready r)
  merged_or_aborted-Only ready (ok done) = ends
  merged_or_aborted-Only ready (throw e) = Only-seq (abort_merge-Only ready) (λ u. ends)

  pub transact-Only : (ready : Ready) → Only is_plain (transact node json args ready)
  unfolding transact
  transact-Only ready = Only-handle _ (merge_candidate-Only ready) (merged_or_aborted-Only ready)

  restore_product-Only :
      (ready : Ready) (files : List String)
      → Only is_plain (restore_product node json args ready files)
  unfolding restore_product is_lock is_cleanup is_push
  restore_product-Only ready [] = search (requests)
  restore_product-Only ready (file ∷ files) =
      search (requests, restore_product-Only ready files) depth 40 fits 4000

  pub roll_back_merge-Only :
      (ready : Ready) (commit : String)
      → Only is_plain (roll_back_merge node json args ready commit)
  unfolding roll_back_merge is_lock is_cleanup is_push
  roll_back_merge-Only ready commit =
      search
        (
          requests, restore_product-Only, restore_bytes-Only, remove_unknown_untracked-Only,
          restore_index-Only,
        )
        depth 60 fits 8000
