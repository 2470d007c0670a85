-- ===== src/Check/Task.antt =====
-- The last gate of `checkTask` in scripts/task/check-task.mjs, and `checkTask` itself.
pub mod Laws
pub mod Separation
pub mod Finish
pub mod Confined
pub mod Tests
use kakesu.Prelude.{
  ℕ, String, Bool, true, false, ◌&&◌, ◌||◌, not, List, [], ◌∷◌, if◌then◌else◌, ◌⧺◌, ◌==◌,
}
use kakesu.Js.{Value, str, prop, truthy, strict_eq}
use kakesu.Result.{Result, ok, throw}
use kakesu.Work.Node.{Node}
use kakesu.Work.Documents.{parse_frontmatter, resolve_inside, task_by_id, assert_task_id}
use kakesu.Check.Findings.{
  Check, ◌>>=◌, ◌>>◌, pure, lift, reports, each, only_if, attempt, report_all, errors_of,
}
use kakesu.Check.Values.{is, one_of, is_sha, text_or_empty, about}
use kakesu.Check.Contract.{Contract, validate_safety_contract_plan}
use kakesu.Check.Merges.{candidate_merged}
use kakesu.Check.Worktrees.{reviewed_merged}
use kakesu.Check.Safety.{check_safety_contract_done}
use kakesu.Check.Phases.{
  required_task_files, change_class_of, effective_phase, status_reports, document, check_file,
  check_legacy, check_dev_gate, check_legacy_review, check_review, qa_plan_reports,
}

abbrev pub done_reports : String → Value → Value → List (Bool × String)
done_reports id qa handover =
    (
      not (one_of ("pass" ∷ "accepted_with_bugs" ∷ []) (prop "decision" qa)),
      about id "done requires QA pass or accepted_with_bugs",
    )
    ∷ (
      not (is "complete" (prop "status" handover)) || not (truthy (prop "completed_at" handover)),
      about id "done requires a complete HANDOVER",
    )
    ∷ []

abbrev pub is_tester : Value → Value → Bool
is_tester task qa =
    truthy (prop "qa_agent" qa)
    && strict_eq (prop "qa_agent" qa) (prop "qa" (prop "assignees" task))

abbrev pub is_safety : Value → Bool
is_safety task = is "safety_contract" (change_class_of task)

module _ (node : Node) (root : String) where
  unfoldable pub check_qa_gate : String → String → Value → Bool → Check (Unit {0})
  check_qa_gate dir id task legacy = do
    review ← document node root dir "REVIEW_RESULT.md"
    qa ← document node root dir "QA_RESULT.md"
    handover ← document node root dir "HANDOVER.md"
    if legacy then check_legacy_review node root id review else check_review node root dir id review
    qa_plan ← document node root dir "QA_PLAN.md"
    reports (qa_plan_reports id task review qa_plan)

  unfoldable pub check_legacy_done : String → Value → Value → Value → Check (Unit {0})
  check_legacy_done id task review qa = do
    reports (
        (
          not (is_tester task qa)
              || not (truthy (prop "tested_commit" qa))
              || not (truthy (prop "tested_at" qa)),
          about id "legacy done requires QA agent identity, tested_commit, and tested_at",
        )
        ∷ [])
    if is_sha (text_or_empty (prop "merged_commit" task))
        then attempt (λ e. about id ("legacy done Git evidence is invalid: " ⧺ e))
            (reviewed_merged node root task review qa)
        else reports ((true, about id "legacy done requires merged_commit") ∷ [])

  unfoldable pub check_candidate_done : String → Value → Value → Value → Check (Unit {0})
  check_candidate_done id task qa handover = do
    let candidate = prop "candidate_commit" handover
    reports (
        (
          not (is_tester task qa) || not (truthy (prop "tested_at" qa)),
          about id "done requires QA agent identity and tested_at",
        )
        ∷ [])
    if is_sha (text_or_empty candidate)
        then attempt
            (λ e.
              about id ("done requires a main no-ff merge derived from HANDOVER candidate: " ⧺ e))
            (candidate_merged node root candidate)
        else reports ((true, about id "done requires HANDOVER candidate_commit") ∷ [])

  -- A finished product task.
  unfoldable pub check_done : String → String → Value → Bool → Check (Unit {0})
  check_done dir id task legacy = do
    qa ← document node root dir "QA_RESULT.md"
    handover ← document node root dir "HANDOVER.md"
    review ← document node root dir "REVIEW_RESULT.md"
    reports (done_reports id qa handover)
    if legacy then check_legacy_done id task review qa else check_candidate_done id task qa handover

  -- What the preflight checks: the status, the files, the plan's contract and old evidence.
  unfoldable pub preflight : Value → String → String → Check (Value × String × Contract × Bool)
  preflight backlog id phase = do
    lift (assert_task_id (str id))
    task ← lift (task_by_id backlog id)
    reports (status_reports id phase task)
    dir ← lift (resolve_inside node root (prop "task_dir" task) (id ⧺ " task_dir"))
    each (check_file node root dir id) required_task_files
    plan ← document node root dir "PLAN.md"
    let contract = validate_safety_contract_plan node plan (change_class_of task) id
    report_all contract.errors
    legacy ← check_legacy node root dir id task
    pure (task, dir, contract, legacy)

  unfoldable pub gates : String → Value → String → Contract → Bool → Check (Unit {0})
  gates id task dir contract legacy = do
    only_if (one_of ("dev" ∷ "qa" ∷ "done" ∷ []) (effective_phase task))
        (check_dev_gate node root dir id task)
    only_if (one_of ("qa" ∷ "done" ∷ []) (effective_phase task) && not (is_safety task))
        (check_qa_gate dir id task legacy)
    only_if (is "done" (prop "status" task)) (
        if is_safety task
        then check_safety_contract_done node root dir task id contract
        else check_done dir id task legacy)

  -- The errors that `checkTask` returns.
  unfoldable pub check_task : Value → String → String → List String
  check_task backlog id phase = errors_of (do
    (task, dir, contract, legacy) ← preflight backlog id phase
    only_if (not (phase == "preflight")) (gates id task dir contract legacy))
