-- ===== src/Check/Task/Separation.antt =====
-- Who has planned, developed and approved a task that `checkTask` accepts.
use kakesu.Prelude.{String, true, false, not, ◌≡◌, refl, inl, inr, [], ◌∷◌, arith, ◌⧺◌}
use kakesu.Js.{Value, prop, truthy, strict_eq}
use kakesu.Js.Laws.{strict_eq_sound}
use kakesu.Result.{ok, Result-cases}
use kakesu.Routing.Selection.{validate_dev_selection}
use kakesu.Routing.Selection.Laws.{IsSelected, validate_dev_selection_exact}
use kakesu.Work.Texts.{includes}
use kakesu.Work.Node.{Node}
use kakesu.Work.Documents.{parse_frontmatter, resolve_inside, task_by_id}
use kakesu.Check.Findings.{reports}
use kakesu.Check.Findings.Laws.{
  Clean, >>=-Clean, lift-Clean, reports-Quiet, Quiet, only_if-Clean, steps-AllClean,
}
use kakesu.Check.Values.{one_of, text_or_empty}
use kakesu.Check.Gates.{
  check_developer, assignees_of, approvals, separation, marker_of, is_approved,
}
use kakesu.Check.Phases.{effective_phase, check_dev_gate}
use kakesu.Check.Task.{gates, check_task}
use kakesu.Check.Task.Laws.{passed}

-- The developer is of the profile that the plan chooses.
abbrev pub IsFitting : Value → Value → Type 0
IsFitting task plan =
    (profile : Value) × IsSelected plan profile
    × (includes (marker_of profile) (text_or_empty (prop "dev" (prop "assignees" task))) ≡ true)

-- The plans are approved, by the assigned agents, and who develops neither reviews nor tests.
abbrev pub IsSeparated : Value → Value → Value → Type 0
IsSeparated assignees plan qa_plan =
    (is_approved plan ≡ true)
    × (is_approved qa_plan ≡ true)
    × (prop "planner_agent" plan ≡ prop "planner" assignees)
    × (prop "approved_by" plan ≡ prop "main" assignees)
    × (prop "qa_agent" qa_plan ≡ prop "qa" assignees)
    × (prop "approved_by" qa_plan ≡ prop "main" assignees)
    × (strict_eq (prop "dev" assignees) (prop "reviewer" assignees) ≡ false)
    × (strict_eq (prop "dev" assignees) (prop "qa" assignees) ≡ false)

check_developer-IsFitting :
    (id : String) (task plan : Value)
    → Clean (check_developer id task plan) tt
    → IsFitting task plan
unfolding reports
check_developer-IsFitting id task plan h = elim (Result-cases (validate_dev_selection plan)) [
  | inr (e, failed) ↦ let wrong = rw (check_developer, failed) at h in cc
  | inl (profile, chosen) ↦
      let developed = rw (check_developer, chosen) at h in
      (profile, (validate_dev_selection_exact plan profile).0 chosen, ground arith)
]

Quiet-IsSeparated :
    (id : String) (assignees plan qa_plan : Value)
    → Quiet (approvals id plan qa_plan)
    → Quiet (separation id assignees plan qa_plan)
    → IsSeparated assignees plan qa_plan
Quiet-IsSeparated id assignees plan qa_plan (a, (b, _)) (p, (q, (r, (s, _)))) = (
  ground arith,
  ground arith,
  strict_eq_sound _ _ (ground arith),
  strict_eq_sound _ _ (ground arith),
  strict_eq_sound _ _ (ground arith),
  strict_eq_sound _ _ (ground arith),
  r,
  s,
)

module _ (node : Node) (root : String) where
  abbrev pub IsWorkable : String → Value → Type 0
  IsWorkable id task =
      (dir : String) × (plan : Value) × (qa_plan : Value) × (resolve_inside node root
          (prop "task_dir" task) (id ⧺ " task_dir")
        ≡ ok dir)
      × (parse_frontmatter node (node.path_join dir "PLAN.md") ≡ ok plan)
      × (parse_frontmatter node (node.path_join dir "QA_PLAN.md") ≡ ok qa_plan)
      × IsSeparated (assignees_of task) plan qa_plan
      × IsFitting task plan

  -- A task that is accepted without a bootstrap exception, and that is in development, under test,
  -- blocked in one of these or done, has plans that the assigned main agent approved and the
  -- assigned planner and tester wrote, a developer of the profile that the plan's risk signals call
  -- for, and a developer who is neither its reviewer nor its tester.
  pub check_task-IsWorkable :
      (backlog : Value) (id : String) (task : Value)
      → task_by_id backlog id ≡ ok task
      → one_of ("dev" ∷ "qa" ∷ "done" ∷ []) (effective_phase task) ≡ true
      → truthy (prop "bootstrap_exception" task) ≡ false
      → check_task node root backlog id "full" ≡ []
      → IsWorkable id task
  unfolding gates check_dev_gate
  check_task-IsWorkable backlog id task found phase regular h =
      let (dir, contract, legacy, ready, clean) = passed node root backlog id found h in
      let (_, first, _) = >>=-Clean _ _ clean in
      let gate = only_if-Clean _ _ first phase in
      let (plan, parsed, h1) = >>=-Clean _ _ gate in
      let (qa_plan, parsed_qa, h2) = >>=-Clean _ _ h1 in
      let (_, approved, h3) = >>=-Clean _ _ h2 in
      let (_, developer, h4) = >>=-Clean _ _ h3 in
      let (_, _, h5) = >>=-Clean _ _ h4 in
      let wanted : not (truthy (prop "bootstrap_exception" task)) ≡ true = rw regular refl in
      let (separated, _) = steps-AllClean _ (only_if-Clean _ _ h5 wanted) in
      (
        dir,
        plan,
        qa_plan,
        ready.1,
        lift-Clean _ parsed,
        lift-Clean _ parsed_qa,
        Quiet-IsSeparated id _ plan qa_plan (reports-Quiet _ approved) (reports-Quiet _ separated),
        check_developer-IsFitting id task plan (only_if-Clean _ _ developer wanted),
      )
