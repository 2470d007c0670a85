-- ===== src/Lifecycle/Sparse/Undone.antt =====
-- What a worktree that was made does not have, and what a failure takes back.
use kakesu.Prelude.{String, Bool, true, false, ◌≡◌, some, List, [], ◌∷◌, All, ◌⊎◌, ◌==◌}
use kakesu.Result.{Result, ok, throw}
use kakesu.Work.Node.{Node, Spawned}
use kakesu.Lifecycle.Script.{Script, Request, Answer, Event, World, spawn, exists}
use kakesu.Lifecycle.Script.Happened.{happened}
use kakesu.Lifecycle.Sparse.{addition, removal, deletion, forbidden_paths}

abbrev is_absence : String → (q : Request) → Answer q → Bool
is_absence place (exists path) false = path == place
is_absence place _ _ = false

-- A path was looked up, and was not there.
abbrev pub was_absent : String → List Event → Bool
was_absent place = happened (is_absence place)

module _ (node : Node) (root branch worktree : String) (world : World) where
  abbrev pub AreAbsent : List String → List Event → Type 0
  AreAbsent files past = All (λ f. was_absent (node.path_join worktree f) past ≡ true) files

  -- The worktree and the branch were taken away at the end, in this order, unless git did not start.
  abbrev pub IsUndone : List Event → Type 0
  IsUndone past =
      (before : List Event) × (removed : Spawned) × (((e : String) × (removed.error ≡ some e)
          × (past ≡ (spawn root "git" (removal node root branch worktree) [], removed) ∷ before))
        ⊎ ((deleted : Spawned) × (past
              ≡ (spawn root "git" (deletion node root branch worktree) [], deleted)
                ∷ (spawn root "git" (removal node root branch worktree) [], removed)
                ∷ before)))

  -- Nothing was made, or what was made was taken back.
  abbrev pub IsFailed : List Event → List Event → Type 0
  IsFailed before past =
      ((added : Spawned) × (past
          ≡ (spawn root "git" (addition node root branch worktree) [], added) ∷ before))
      ⊎ IsUndone past

  -- A run that ends with `past`, from `before`.
  abbrev pub IsMade : List Event → Result (Unit {0}) × List Event → Type 0
  IsMade before run =
      ((run.0 ≡ ok tt) × AreAbsent forbidden_paths run.1)
      ⊎ (((e : String) × (run.0 ≡ throw e)) × IsFailed before run.1)

  abbrev Leaves : List Event → Result (Unit {0}) × List Event → Type 0
  Leaves before (ok _, past) = AreAbsent forbidden_paths past
  Leaves before (throw _, past) = IsFailed before past
