-- ===== src/Lifecycle/Snapshot.antt =====
-- How `completionGate` of scripts/task/unified-lifecycle.mjs saves changed files and brings them back:
-- `snapshotBytes`, `restoreBytes`, `removeUnknownUntracked` and the patch of the index.
pub mod Disk
pub mod Restored
mod Tests
pub mod Requests
use kakesu.Prelude.{
  ℕ, String, Bool, not, ◌||◌, Option, none, some, List, [], ◌∷◌, any, ◌==◌, if◌then◌else◌, ◌⧺◌,
}
use kakesu.Result.{Result, ok}
use kakesu.Work.Node.{Node, is_zero}
use kakesu.Lifecycle.Script.{
  Script, perform, finish, write, stat, make_dir, remove, chmod, ◌>>=◌, ◌>>◌, lift, handle, only_if,
}
use kakesu.Lifecycle.Steps.{output, file_exists, read_file, changed_files}

-- A file as it was: its mode and its bytes, if it was there.
pub record Saved : Type 0 where
  pub file : String
  pub state : Option (ℕ × String)

-- `snapshot.has(file)`
abbrev pub is_saved : List Saved → String → Bool
is_saved snapshot file = any (λ saved. saved.file == file) snapshot

abbrev pub delete : String → Script (Unit {0})
delete path = perform (remove path) (λ r. finish r)

module _ (node : Node) (root : String) where
  abbrev pub place_of : String → String
  place_of file = node.path_join root file

  unfoldable pub save_file : String → Script Saved
  save_file file = do
    there ← file_exists (place_of file)
    if there
        then (do
          mode ← perform (stat (place_of file)) (λ r. finish r)
          text ← read_file (place_of file)
          lift (ok (record { file = file; state = some (mode, text) })))
        else lift (ok (record { file = file; state = none }))

  -- `snapshotBytes`
  unfoldable pub snapshot_bytes : List String → Script (List Saved)
  snapshot_bytes [] = lift (ok [])
  snapshot_bytes (file ∷ files) = do
    saved ← save_file file
    rest ← snapshot_bytes files
    lift (ok (saved ∷ rest))

  abbrev remove_file : String → Script (Unit {0})
  remove_file file = do there ← file_exists (place_of file); only_if there (delete (place_of file))

  abbrev write_file : String → ℕ → String → Script (Unit {0})
  write_file file mode text = do
    perform (make_dir (node.dirname (place_of file))) (λ r. finish r)
    perform (write (place_of file) text) (λ r. finish r)
    perform (chmod (place_of file) mode) (λ r. finish r)

  unfoldable pub restore_file : Saved → Script (Unit {0})
  restore_file saved = elim saved.state [
    | none ↦ remove_file saved.file
    | some (mode, text) ↦ write_file saved.file mode text
  ]

  -- `restoreBytes`
  unfoldable pub restore_bytes : List Saved → Script (Unit {0})
  restore_bytes [] = lift (ok tt)
  restore_bytes (saved ∷ rest) = do restore_file saved; restore_bytes rest

  unfoldable pub remove_untracked : (String → Bool) → List String → Script (Unit {0})
  remove_untracked is_kept [] = lift (ok tt)
  remove_untracked is_kept (file ∷ files) = do
    if is_kept file then lift (ok tt) else (do
      tracked ← output root ("ls-files" ∷ "--error-unmatch" ∷ "--" ∷ file ∷ [])
      only_if (not (is_zero tracked.status)) (delete (place_of file)))
    remove_untracked is_kept files

  -- `removeUnknownUntracked`, where files that are kept are passed over.
  unfoldable pub remove_unknown_untracked : (String → Bool) → Script (Unit {0})
  remove_unknown_untracked is_kept = do
    changed ← changed_files root
    remove_untracked is_kept changed

  abbrev patched : String → Result (Unit {0}) → Script (Unit {0})
  patched patch r = do delete patch; finish r

  -- The patch of the index is applied again.
  unfoldable pub restore_index : String → String → Script (Unit {0})
  restore_index pid index =
      let patch = place_of (".completion-index-" ⧺ (pid ⧺ ".patch")) in
      only_if (not (index == "")) (do
        perform (write patch index) (λ r. finish r)
        handle (do applied ← output root ("apply" ∷ "--cached" ∷ patch ∷ []); lift (ok tt))
            (patched patch))
