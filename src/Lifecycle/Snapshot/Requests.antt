-- ===== src/Lifecycle/Snapshot/Requests.antt =====
-- Saving files changes nothing; bringing them back leaves the lock alone and pushes nothing.
use kakesu.Prelude.{String, Bool, List, [], ◌∷◌, Option-cases, inl, inr}
use kakesu.Work.Node.{Node}
use kakesu.Lifecycle.Script.{is_reading, is_lock}
use kakesu.Lifecycle.Script.Laws.{
  is_cleanup, Only, is_plain, is_push, requests, reading-plain, Only-handle,
}
use kakesu.Lifecycle.Steps.Requests.{changed_files-Only}
use kakesu.Lifecycle.Snapshot.{
  Saved, save_file, snapshot_bytes, restore_file, restore_bytes, remove_untracked,
  remove_unknown_untracked, restore_index,
}

module _ (node : Node) (root : String) where
  save_file-Only : (file : String) → Only is_reading (save_file node root file)
  unfolding save_file is_reading
  save_file-Only file = search (requests) depth 20

  pub snapshot_bytes-Only : (files : List String) → Only is_reading (snapshot_bytes node root files)
  unfolding snapshot_bytes
  snapshot_bytes-Only [] = search (requests)
  snapshot_bytes-Only (file ∷ files) =
      search (requests, save_file-Only, snapshot_bytes-Only files) depth 20

  restore_file-Only : (saved : Saved) → Only is_plain (restore_file node root saved)
  unfolding restore_file is_lock is_cleanup is_push
  restore_file-Only saved = elim (Option-cases saved.state) [
    | inl e ↦ rw e (search (requests) depth 20)
    | inr ((mode, text), e) ↦ rw e (search (requests) depth 20)
  ]

  pub restore_bytes-Only :
      (snapshot : List Saved) → Only is_plain (restore_bytes node root snapshot)
  unfolding restore_bytes
  restore_bytes-Only [] = search (requests)
  restore_bytes-Only (saved ∷ rest) =
      search (requests, restore_file-Only, restore_bytes-Only rest) depth 20

  remove_untracked-Only :
      (is_kept : String → Bool) (files : List String)
      → Only is_plain (remove_untracked node root is_kept files)
  unfolding remove_untracked is_lock is_cleanup is_push
  remove_untracked-Only is_kept [] = search (requests)
  remove_untracked-Only is_kept (file ∷ files) =
      search (requests, remove_untracked-Only is_kept files) depth 30

  pub remove_unknown_untracked-Only :
      (is_kept : String → Bool) → Only is_plain (remove_unknown_untracked node root is_kept)
  unfolding remove_unknown_untracked
  remove_unknown_untracked-Only is_kept =
      search (requests, reading-plain, changed_files-Only, remove_untracked-Only) depth 20

  pub restore_index-Only : (pid index : String) → Only is_plain (restore_index node root pid index)
  unfolding restore_index is_lock is_cleanup is_push
  restore_index-Only pid index = search (requests, Only-handle) depth 30
