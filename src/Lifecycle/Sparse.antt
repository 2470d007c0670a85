-- ===== src/Lifecycle/Sparse.antt =====
-- `createSparseWorktree` of scripts/task/unified-lifecycle.mjs: a worktree for a task without the files
-- that main manages.
mod Undone
mod Tests
use kakesu.Prelude.{String, List, [], ◌∷◌, ◌⧺◌}
use kakesu.Result.{Result, ok, throw}
use kakesu.Work.Node.{Node}
use kakesu.Work.Texts.{join}
use kakesu.Lifecycle.Script.{
  Script, Request, spawn, write, perform, finish, handle, ◌>>=◌, ◌>>◌, lift, guard,
}
use kakesu.Lifecycle.Steps.{git, output, file_exists}

abbrev sparse_patterns : List String
sparse_patterns =
    "/*" ∷ "!/backlog.yaml" ∷ "!/project.yaml" ∷ "!/tasks/" ∷ "!/wiki/" ∷ "!/lap30/"
    ∷ "!/viewer/index.html" ∷ []

abbrev pub forbidden_paths : List String
forbidden_paths =
    "backlog.yaml" ∷ "project.yaml" ∷ "tasks" ∷ "wiki" ∷ "lap30" ∷ "viewer/index.html" ∷ []

module _ (node : Node) (root branch worktree : String) where
  unfoldable pub check_absent : List String → Script (Unit {0})
  check_absent [] = lift (ok tt)
  check_absent (file ∷ files) = do
    there ← file_exists (node.path_join worktree file)
    guard there ("Sparse worktree contains main-managed path: " ⧺ file)
    check_absent files

  -- The body of the `try`.
  unfoldable pub fill_worktree : Script (Unit {0})
  fill_worktree = do
    begun ← git worktree ("sparse-checkout" ∷ "init" ∷ "--no-cone" ∷ [])
    file ← git worktree ("rev-parse" ∷ "--git-path" ∷ "info/sparse-checkout" ∷ [])
    perform (write file (join "\n" sparse_patterns ⧺ "\n")) (λ r. finish r)
    read ← git worktree ("read-tree" ∷ "-mu" ∷ "HEAD" ∷ [])
    check_absent forbidden_paths

  abbrev pub addition : List String
  addition = "worktree" ∷ "add" ∷ "-b" ∷ branch ∷ worktree ∷ "main" ∷ []

  abbrev pub removal : List String
  removal = "worktree" ∷ "remove" ∷ "--force" ∷ worktree ∷ []

  abbrev pub deletion : List String
  deletion = "branch" ∷ "-D" ∷ branch ∷ []

  -- The `catch`.
  abbrev pub filled_or_removed : Result (Unit {0}) → Script (Unit {0})
  filled_or_removed (ok u) = finish (ok u)
  filled_or_removed (throw e) = do
    removed ← output root removal
    deleted ← output root deletion
    finish (throw e)

  -- `createSparseWorktree`
  unfoldable pub create_sparse_worktree : Script (Unit {0})
  create_sparse_worktree = do added ← git root addition; handle fill_worktree filled_or_removed
