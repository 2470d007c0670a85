-- ===== src/Lifecycle/Composite/Gated.antt =====
-- What stands before a pull request.
use kakesu.Prelude.{◌+◌, String, false, ◌≡◌, ◌⊎◌, List, [], ◌∷◌, ◌++◌}
use kakesu.Result.{Result}
use kakesu.Work.Node.{Node, Spawned}
use kakesu.Lifecycle.Script.{Event, Request, World, Script, spawn}
use kakesu.Lifecycle.Script.Pushes.{pushes}
use kakesu.Lifecycle.Composite.{Composite, Args, branch_of}
use kakesu.Lifecycle.Composite.Checked.{IsChecked}

module _ (node : Node) (root : String) where
  abbrev pub push_of : Composite → Request
  push_of c = spawn root "git" ("push" ∷ "-u" ∷ "origin" ∷ branch_of c.task ∷ []) []

  -- One push, of the branch, and then no other.
  abbrev IsPushed : Composite → List Event → List Event → Type 0
  IsPushed c checked past =
      (pushes past ≡ pushes checked + 1)
      × (answer : Spawned) × (later : List Event) × (past
          ≡ (later ++ (push_of c, answer) ∷ checked))

  -- There was no push, or there was one, of the branch of a candidate that passed the checks up to
  -- then.
  abbrev pub IsGated : Args → World → List Event → Type 0
  IsGated args world past =
      (pushes past ≡ 0)
      ⊎ ((pushes past ≡ 1)
          × (args.dry_run ≡ false)
          × (c : Composite) × (checked : List Event) × (answer : Spawned) × (later : List Event)
          × IsChecked node root world c checked args.task_id
          × (past ≡ (later ++ (push_of c, answer) ∷ checked)))
