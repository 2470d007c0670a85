-- ===== src/Check/Task/Laws.antt =====
-- What a task has to show for `checkTask` to accept it.
use kakesu.Prelude.{String, Bool, ◌≡◌, refl, sym, [], ◌⧺◌}
use kakesu.Js.{Value, prop}
use kakesu.Result.{ok}
use kakesu.Work.Node.{Node}
use kakesu.Work.Documents.{parse_frontmatter, resolve_inside, task_by_id}
use kakesu.Check.Findings.Laws.{
  Clean, errors_of-Clean, >>=-Clean, lift-Clean, reports-Quiet, only_if-Clean, report_all-Clean,
  pure-Clean, Quiet,
}
use kakesu.Check.Contract.{Contract, validate_safety_contract_plan}
use kakesu.Check.Phases.{change_class_of, status_reports, check_legacy}
use kakesu.Check.Task.{preflight, gates, check_task}

abbrev pub Ready : Type 0
Ready = Value × String × Contract × Bool

module _ (node : Node) (root : String) where
  -- A task with the directory, the contract and the age of its evidence, as the preflight has
  -- accepted them.
  abbrev pub IsReady : Value → String → String → Ready → Type 0
  IsReady backlog id phase (task, dir, contract, legacy) =
      (task_by_id backlog id ≡ ok task)
      × (resolve_inside node root (prop "task_dir" task) (id ⧺ " task_dir") ≡ ok dir)
      × Quiet (status_reports id phase task)
      × (contract.errors ≡ [])
      × ((plan : Value) × (parse_frontmatter node (node.path_join dir "PLAN.md") ≡ ok plan)
          × (contract ≡ validate_safety_contract_plan node plan (change_class_of task) id))
      × Clean (check_legacy node root dir id task) legacy

  preflight-IsReady :
      (backlog : Value) (id phase : String) {r : Ready}
      → Clean (preflight node root backlog id phase) r
      → IsReady backlog id phase r
  unfolding preflight
  preflight-IsReady backlog id phase {r} h =
      let (_, _, h1) = >>=-Clean _ _ h in
      let (task, found, h2) = >>=-Clean _ _ h1 in
      let (_, status, h3) = >>=-Clean _ _ h2 in
      let (dir, inside, h4) = >>=-Clean _ _ h3 in
      let (_, _, h5) = >>=-Clean _ _ h4 in
      let (plan, parsed, h6) = >>=-Clean _ _ h5 in
      let (_, quiet, h7) = >>=-Clean _ _ h6 in
      let (legacy, binding, h8) = >>=-Clean _ _ h7 in
      rw (sym (pure-Clean _ h8)) (
        lift-Clean _ found,
        lift-Clean _ inside,
        reports-Quiet _ status,
        report_all-Clean _ quiet,
        (plan, lift-Clean _ parsed, refl),
        binding,
      )

  -- A check without errors has passed the preflight and all gates.
  pub passed :
      (backlog : Value) (id : String) {task : Value}
      → task_by_id backlog id ≡ ok task
      → check_task node root backlog id "full" ≡ []
      → (dir : String) × (contract : Contract) × (legacy : Bool) × IsReady backlog id "full"
          (task, dir, contract, legacy)
        × Clean (gates node root id task dir contract legacy) tt
  unfolding check_task
  passed backlog id {task} found h =
      let (_, clean) = errors_of-Clean _ h in
      let ((t, dir, contract, legacy), first, rest) = >>=-Clean _ _ clean in
      let ready = preflight-IsReady backlog id "full" first in
      let same : t ≡ task = cc (ready.0, found) in
      rw (sym same) (dir, contract, legacy, ready, only_if-Clean _ _ rest refl)
