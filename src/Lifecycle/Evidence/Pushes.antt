-- ===== src/Lifecycle/Evidence/Pushes.antt =====
-- How often `evidenceCommit` pushes, and what it says of that.
use kakesu.Prelude.{String, List, [], ◌∷◌}
use kakesu.Result.{Result}
use kakesu.Work.Node.{Node}
use kakesu.Lifecycle.Script.{Script, Request, World, spawn}
use kakesu.Lifecycle.Evidence.{Args}

module _ (node : Node) (json : List String → String) (args : Args) (world : World) where
  abbrev push_request : Request
  push_request = spawn args.root "git" ("push" ∷ "origin" ∷ "HEAD:main" ∷ []) []
