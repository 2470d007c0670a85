-- ===== src/Check/Task/Finish.antt =====
-- The evidence of a finished product task that `checkTask` accepts.
use kakesu.Prelude.{String, true, ◌≡◌, ◌⊎◌, List, [], ◌∷◌, ◌⧺◌}
use kakesu.Js.{Value, prop, to_text}
use kakesu.Result.{ok}
use kakesu.Work.Node.{Node}
use kakesu.Work.Documents.{parse_frontmatter, resolve_inside}
use kakesu.Check.Values.{is, one_of, is_sha, text_or_empty}
use kakesu.Check.Merges.{
  repository_for, default_branch, merge_head, main_merges, matching, merges_candidate, is_pending,
  parents_of, follows_head, is_single,
}
use kakesu.Check.Task.{is_tester}

module _ (node : Node) (root : String) where
  -- The candidate is about to be merged on the head of main, or exactly one of main's merges has it
  -- as the second of its two parents.
  abbrev pub IsMerged : Value → Type 0
  IsMerged candidate =
      (repository : String) × (branch : Value) × (repository_for node root ≡ ok repository)
      × (default_branch node root ≡ ok branch)
      × (((head : List String) × (parents : List String) × (is_pending candidate
                (merge_head node root repository)
              ≡ true)
            × (parents_of node root repository "HEAD" ≡ ok head)
            × (parents_of node root repository (to_text candidate) ≡ ok parents)
            × (follows_head head parents ≡ true))
          ⊎ ((merges : List String) × (found : List (List String)) × (main_merges node root
                  repository branch
                ≡ ok merges)
              × (matching node root repository (merges_candidate candidate) merges ≡ ok found)
              × (is_single found ≡ true)))

  -- The QA result and the handover of a finished task.
  abbrev pub IsResult : Value → Value → Value → Type 0
  IsResult task qa handover =
      (one_of ("pass" ∷ "accepted_with_bugs" ∷ []) (prop "decision" qa) ≡ true)
      × (is_tester task qa ≡ true)
      × (is "complete" (prop "status" handover) ≡ true)
      × (is_sha (text_or_empty (prop "candidate_commit" handover)) ≡ true)
      × IsMerged (prop "candidate_commit" handover)

  abbrev pub IsFinished : String → Value → Type 0
  IsFinished id task =
      (dir : String) × (qa : Value) × (handover : Value) × (resolve_inside node root
          (prop "task_dir" task) (id ⧺ " task_dir")
        ≡ ok dir)
      × (parse_frontmatter node (node.path_join dir "QA_RESULT.md") ≡ ok qa)
      × (parse_frontmatter node (node.path_join dir "HANDOVER.md") ≡ ok handover)
      × IsResult task qa handover
