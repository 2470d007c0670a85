-- ===== src/Lifecycle/Sparse/Tests.antt =====
-- A worktree in which a directory is left that should not be there.
use kakesu.Prelude.{String, [], ◌≡◌, refl, ◌==◌, ◌⧺◌}
use kakesu.Js.{null}
use kakesu.Result.{ok, throw}
use kakesu.Work.Node.{Node}
use kakesu.Lifecycle.Fixtures.{told, node_of, world_of}
use kakesu.Lifecycle.Script.{World, exec, handle}
use kakesu.Lifecycle.Sparse.{create_sparse_worktree, fill_worktree, check_absent}

abbrev node : Node
node = node_of (λ dir file. dir ⧺ ("/" ⧺ file)) (λ text. null)

abbrev world : String → World
world left = world_of (λ past args. told "") (λ path. path == left) (λ path. "")

left_test :
    (exec (world "/r/w/wiki") (create_sparse_worktree node "/r" "task/TASK-0042-x" "/r/w") []).0
    ≡ throw "Sparse worktree contains main-managed path: wiki"
unfolding exec handle create_sparse_worktree fill_worktree check_absent
left_test = refl

made_test :
    (exec (world "") (create_sparse_worktree node "/r" "task/TASK-0042-x" "/r/w") []).0 ≡ ok tt
unfolding exec handle create_sparse_worktree fill_worktree check_absent
made_test = refl
