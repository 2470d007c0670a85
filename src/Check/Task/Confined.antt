-- ===== src/Check/Task/Confined.antt =====
-- The evidence of a finished safety contract that `checkTask` accepts.
use kakesu.Prelude.{String, true, ◌≡◌, ◌⊎◌, ◌⧺◌, all}
use kakesu.Js.{Value, prop}
use kakesu.Result.{ok}
use kakesu.Work.Node.{Node}
use kakesu.Work.Documents.{parse_frontmatter, resolve_inside}
use kakesu.Check.Values.{is, is_sha, text_or_empty}
use kakesu.Check.Contract.{Contract}
use kakesu.Check.Safety.{safety_check_keys, has_exact_keys, times_agree, is_merged_already}
use kakesu.Check.Safety.Laws.{IsConfined}

module _ (node : Node) (root : String) where
  -- The classification is approved by the assigned main agent after the plans were, and the four
  -- checks, and no others, have passed.
  abbrev pub IsClassified : Value → Value → Value → Value → Type 0
  IsClassified task plan qa_plan handover =
      (prop "classification_approved_by" plan ≡ prop "main" (prop "assignees" task))
      × (times_agree node (node.parse_date (prop "approved_at" plan))
            (node.parse_date (prop "approved_at" qa_plan))
            (node.parse_date (prop "classification_approved_at" plan))
          ≡ true)
      × (has_exact_keys (prop "safety_checks" handover) ≡ true)
      × (all (λ key. is "pass" (prop key (prop "safety_checks" handover))) safety_check_keys ≡ true)

  abbrev pub IsCandidate : Value → Type 0
  IsCandidate handover =
      let candidate = text_or_empty (prop "candidate_commit" handover) in
      (is_sha candidate ≡ true) × IsConfined node root candidate

  abbrev pub IsContractDone : String → Value → Type 0
  IsContractDone id task =
      (dir : String) × (plan : Value) × (qa_plan : Value) × (handover : Value) × (resolve_inside
          node root (prop "task_dir" task) (id ⧺ " task_dir")
        ≡ ok dir)
      × (parse_frontmatter node (node.path_join dir "PLAN.md") ≡ ok plan)
      × (parse_frontmatter node (node.path_join dir "QA_PLAN.md") ≡ ok qa_plan)
      × (parse_frontmatter node (node.path_join dir "HANDOVER.md") ≡ ok handover)
      × IsClassified task plan qa_plan handover
      × ((is_merged_already node task handover ≡ true) ⊎ IsCandidate handover)
