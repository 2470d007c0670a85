-- ===== src/Check/Phases.antt =====
-- The checks of `checkTask` in scripts/task/check-task.mjs on the files of a task, and its first two gates.
use kakesu.Prelude.{
  String, Bool, true, false, ◌&&◌, ◌||◌, not, List, [], ◌∷◌, all, if◌then◌else◌, ◌⧺◌, ◌==◌,
}
use kakesu.Js.{Value, str, bool, undefined, prop, to_text, truthy, strict_eq}
use kakesu.Result.{Result, ok, throw}
use kakesu.Work.Node.{Node}
use kakesu.Work.Documents.{parse_frontmatter, readable}
use kakesu.Check.Findings.{Check, ◌>>=◌, ◌>>◌, pure, lift, reports, steps, only_if, attempt}
use kakesu.Check.Values.{is, one_of, about}
use kakesu.Check.Legacy.{has_legacy_completion_binding, committed_legacy_completion_binding}
use kakesu.Check.Merges.{repository_for, has_commit}
use kakesu.Check.Worktrees.{is_task_place, worktree_registered}
use kakesu.Check.Gates.{records_audit, check_developer, assignees_of, approvals, roles, separation}

abbrev pub required_task_files : List String
required_task_files =
    "TASK.md" ∷ "PLAN.md" ∷ "REVIEW_RESULT.md" ∷ "QA_PLAN.md" ∷ "QA_RESULT.md" ∷ "HANDOVER.md" ∷ []

abbrev pub task_statuses : List String
task_statuses = "backlog" ∷ "plan" ∷ "dev" ∷ "qa" ∷ "blocked" ∷ "done" ∷ "cancelled" ∷ []

abbrev or_product : Value → Value
or_product undefined = str "product"
or_product v = v

abbrev pub change_class_of : Value → Value
change_class_of task = or_product (prop "change_class" task)

-- `effectivePhase`
abbrev pub effective_phase : Value → Value
effective_phase task =
    if is "blocked" (prop "status" task) then prop "resume_status" task else prop "status" task

abbrev pub status_reports : String → String → Value → List (Bool × String)
status_reports id phase task =
    let status = prop "status" task in
    let resume = prop "resume_status" task in
    (
      not (one_of ("product" ∷ "safety_contract" ∷ []) (change_class_of task)),
      about id "change_class must be product or safety_contract",
    )
    ∷ (not (phase == "full" || phase == "preflight"), about id ("unsupported check phase " ⧺ phase))
    ∷ (not (one_of task_statuses status), about id ("invalid status " ⧺ to_text status))
    ∷ (
      is "blocked" status && not (one_of ("plan" ∷ "dev" ∷ "qa" ∷ []) resume),
      about id "blocked task requires resume_status plan, dev, or qa",
    )
    ∷ (
      not (is "blocked" status) && truthy resume,
      about id "resume_status is only allowed while blocked",
    )
    ∷ (
      truthy (prop "bootstrap_exception" task) && not (id == "TASK-0001"),
      about id "bootstrap_exception is reserved for TASK-0001",
    )
    ∷ []

abbrev pub evidence_files : List String
evidence_files = "REVIEW_RESULT.md" ∷ "QA_RESULT.md" ∷ "HANDOVER.md" ∷ []

abbrev is_bool : Value → Bool
is_bool (bool _) = true
is_bool _ = false

abbrev pub qa_plan_reports : String → Value → Value → Value → List (Bool × String)
qa_plan_reports id task review qa_plan =
    let assignees = prop "assignees" task in
    let changed = prop "expectation_changed" qa_plan in
    (
      not (strict_eq (prop "reviewer_agent" review) (prop "reviewer" assignees)),
      about id "REVIEW_RESULT reviewer_agent must match assignees.reviewer",
    )
    ∷ (
      not (truthy (prop "implementation_reviewed_at" qa_plan)) || not (is_bool changed),
      about id "QA gate requires the post-implementation QA PLAN review",
    )
    ∷ (
      truthy changed
          && not
              (strict_eq (prop "expectation_change_approved_by" qa_plan) (prop "main" assignees)),
      about id "changed QA expectations require approval by the assigned main Agent",
    )
    ∷ []

module _ (node : Node) (root : String) where
  abbrev pub document : String → String → Check Value
  document dir file = lift (parse_frontmatter node (node.path_join dir file))

  abbrev pub check_file : String → String → String → Check (Unit {0})
  check_file dir id file =
      if node.exists (node.path_join dir file)
      then (do
        matter ← document dir file
        lift (readable matter "task_id")
        reports (
            (not (is id (prop "task_id" matter)), about id (file ⧺ " has mismatched task_id"))
            ∷ []))
      else reports ((true, about id ("missing " ⧺ file)) ∷ [])

  -- Whether the working evidence has a binding from before candidate commits; a document that cannot
  -- be read ends the `try`.
  abbrev pub working_binding : String → Value → Result Bool
  working_binding dir task =
      let read : String → Result Value = λ file. parse_frontmatter node (node.path_join dir file) in
      elim (read "REVIEW_RESULT.md") [
        | throw e ↦ throw e
        | ok review ↦ elim (read "QA_RESULT.md") [
          | throw e ↦ throw e
          | ok qa ↦ elim (read "HANDOVER.md") [
            | throw e ↦ throw e
            | ok handover ↦ ok (has_legacy_completion_binding task review qa handover)
          ]
        ]
      ]

  -- `legacyCompletion`
  unfoldable pub check_legacy : String → String → Value → Check Bool
  check_legacy dir id task =
      let committed = committed_legacy_completion_binding node root id in
      if is "safety_contract" (change_class_of task)
        || not (all (λ file. node.exists (node.path_join dir file)) evidence_files)
      then pure false
      else elim (working_binding dir task) [
        | throw e ↦ pure false
        | ok working ↦ do
          reports (
              (
                working && not committed,
                about id "legacy fields cannot be introduced by current change",
              )
              ∷ [])
          pure committed
      ]

  -- The branch and the worktree of a task at work.
  unfoldable pub check_worktree : String → Value → Check (Unit {0})
  check_worktree id task =
      let branch = is_task_place "task" id (prop "branch" task) in
      let worktree = is_task_place "worktrees" id (prop "worktree" task) in
      (do
        reports (
            (not branch, about id "DEV gate requires a task branch")
            ∷ (not worktree, about id "DEV gate requires a task worktree")
            ∷ [])
        only_if (branch && worktree && not node.ci) (
            attempt
              (λ _. about id "assigned branch and worktree must exist in the product repository")
              (worktree_registered node root task id)))

  unfoldable pub check_dev_gate : String → String → Value → Check (Unit {0})
  unfolding check_worktree
  check_dev_gate dir id task = do
    plan ← document dir "PLAN.md"
    qa_plan ← document dir "QA_PLAN.md"
    let regular = not (truthy (prop "bootstrap_exception" task))
    let assignees = assignees_of task
    reports (approvals id plan qa_plan)
    only_if regular (check_developer id task plan)
    reports (roles id assignees)
    only_if regular (
        steps (
          reports (separation id assignees plan qa_plan)
          ∷ only_if (one_of ("dev" ∷ "qa" ∷ []) (effective_phase task)) (check_worktree id task)
          ∷ []))

  -- The review from before candidate commits.
  unfoldable pub check_legacy_review : String → Value → Check (Unit {0})
  check_legacy_review id review = do
    let reviewed = prop "reviewed_commit" review
    reports (
        (
          not (is "pass" (prop "decision" review))
              || not (is "pass" (prop "make_check" review))
              || not (truthy reviewed),
          about id "legacy QA gate requires review PASS, make check PASS, and reviewed_commit",
        )
        ∷ [])
    only_if (truthy reviewed) (elim (repository_for node root) [
      | throw e ↦
          reports ((true, about id "reviewed_commit is not a product repository commit") ∷ [])
      | ok repository ↦ elim (has_commit node root repository (to_text reviewed)) [
        | throw e ↦
            reports ((true, about id "reviewed_commit is not a product repository commit") ∷ [])
        | ok _ ↦ pure tt
      ]
    ])

  unfoldable pub check_review : String → String → Value → Check (Unit {0})
  check_review dir id review = do
    reports
        ((not (is "pass" (prop "decision" review)), about id "QA gate requires review PASS") ∷ [])
    text ← lift (node.read_text (node.path_join dir "REVIEW_RESULT.md"))
    reports (
        (
          not (records_audit text),
          about id "REVIEW_RESULT must record candidate diff and DEV check audit",
        )
        ∷ [])
