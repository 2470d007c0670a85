-- ===== src/Registry/Tests.antt =====
-- A backlog with two tasks and two decisions, and the theorems at them.
use kakesu.Prelude.{
  String, refl, List, [], ◌∷◌, All, starts_with, ends_with_char, all_chars, ◌==◌, if◌then◌else◌,
}
use kakesu.Js.{
  Value, Fields, Items, num, pos, str, arr, obj, field, end, nil, cons, prop, own, to_text,
  strict_eq, truthy,
}
use kakesu.Js.Trim.{utf16_length, trim_end, trim_start, is_space}
use kakesu.Result.{ok}
use kakesu.Scope.{is_task_id}
use kakesu.Routing.Selection.{validate_dev_selection, promote, check_promotion}
use kakesu.Backlog.Cycle
use kakesu.Backlog.Cycle.{find_cycles, visit_tasks, visit, visit_each, dependencies, remove}
use kakesu.Work.Texts.{strip, until, includes, split, nonempty, shaped}
use kakesu.Work.Node.{Node}
use kakesu.Work.Documents.{front_matter, task_by_id, find_id, parse_frontmatter, resolve_inside}
use kakesu.Check.Findings.{
  ◌>>=◌, pure, lift, reports, only_if, attempt, report_all, steps, each, errors_of,
}
use kakesu.Check.Findings.Laws.{Clean}
use kakesu.Check.Values.{text_or_empty, is_sha, has_field}
use kakesu.Check.Contract.{validate_safety_contract_plan}
use kakesu.Check.Legacy.{has_legacy_completion_binding, front_matter_text, committed_binding}
use kakesu.Check.Merges.{merges_candidate, repository_for, matching, candidate_merged}
use kakesu.Check.Gates.{starts_with_word, includes_word, then_check, includes_make_check}
use kakesu.Check.Phases.{
  check_legacy, check_worktree, check_dev_gate, check_legacy_review, check_review,
}
use kakesu.Check.Task.{
  check_qa_gate, check_legacy_done, check_candidate_done, check_done, preflight, gates, check_task,
}
use kakesu.Check.Task.Tests.{node, task, named}
use kakesu.Registry.Entries.{
  has, check_epics, epic_reports, entry_reports, dependency_reports, cycle_messages, check_entries,
  check_dependencies, check_backlog,
}
use kakesu.Registry.Accepted.{IsBacklog, check_backlog-IsBacklog}
use kakesu.Registry.Decisions.{
  Page, Decision, decision_reports, status_by_id, supersession_reports, supersedes, check_pages,
  check_supersession, check_decisions,
}
use kakesu.Registry.Settled.{IsSettled, check_decisions-IsSettled}

abbrev planned : Fields → Fields
planned rest =
    named (("epic", "EPIC-001") ∷ ("type", "feature") ∷ ("priority", "P1") ∷ [])
      (field "estimate_points" (num (pos 5)) rest)

abbrev epic : Value
epic = obj (
    named
      (("id", "EPIC-001")
        ∷ ("title", "Store")
        ∷ ("target_start", "2026-01-01")
        ∷ ("target_end", "2026-02-01")
        ∷ [])
      end)

-- The second task is finished and depends on the first, which is being planned.
abbrev backlog : Value
backlog = obj (
    field "epics" (arr (cons epic nil)) (
      field "tasks"
        (arr (
          cons
            (obj (
              named (("id", "TASK-0041") ∷ ("task_dir", "d") ∷ ("status", "plan") ∷ [])
                (planned end)))
            (cons (task "p" (planned (field "depends_on" (arr (cons (str "TASK-0041") nil)) end)))
              nil)))
        end))

backlog_accepted : Clean (check_backlog node "r" backlog) tt
unfolding check_backlog check_epics check_entries check_dependencies epic_reports entry_reports
    dependency_reports cycle_messages has shaped find_cycles visit_tasks visit visit_each
    dependencies remove check_task preflight gates check_done check_candidate_done check_legacy_done
    check_qa_gate check_review check_legacy_review check_dev_gate check_worktree check_legacy
    includes_make_check then_check includes_word starts_with_word candidate_merged matching
    repository_for merges_candidate committed_binding front_matter_text
    has_legacy_completion_binding validate_safety_contract_plan has_field is_sha text_or_empty
    errors_of each steps report_all attempt only_if reports lift pure ◌>>=◌ resolve_inside
    parse_frontmatter task_by_id find_id front_matter nonempty split includes until strip
    check_promotion promote validate_dev_selection utf16_length truthy strict_eq to_text own prop
    all_chars ends_with_char starts_with is_task_id trim_end trim_start is_space Cycle.has
backlog_accepted = refl

check_backlog-IsBacklog_example : IsBacklog node "r" backlog
check_backlog-IsBacklog_example = check_backlog-IsBacklog node "r" backlog backlog_accepted

abbrev decision : String → String → List String → Value
decision id status superseded = obj (
    named (("decision_id", id) ∷ ("status", status) ∷ [])
      (field "supersedes" (arr (texts superseded)) end))
  where
    texts : List String → Items
    texts [] = nil
    texts (s ∷ ss) = cons (str s) (texts ss)

-- Reads the two decisions.
abbrev wiki : Node
wiki = record node {
  parse_yaml = λ text. ok (
      if text == "r/wiki/decisions/1.md"
      then decision "DECISION-0001" "superseded" []
      else decision "DECISION-0002" "accepted" ("DECISION-0001" ∷ []));
}

abbrev page : String → String → String → Page
page path id status = record {
  path = path;
  kind = str "decision";
  title = str "Storage";
  decision_id = str id;
  status = str status;
}

abbrev pages : List Page
pages =
    page "wiki/decisions/1.md" "DECISION-0001" "superseded"
    ∷ page "wiki/decisions/2.md" "DECISION-0002" "accepted"
    ∷ []

abbrev decisions : List Decision
decisions =
    record { metadata = decision "DECISION-0001" "superseded" []; path = "wiki/decisions/1.md" }
    ∷ record {
      metadata = decision "DECISION-0002" "accepted" ("DECISION-0001" ∷ []);
      path = "wiki/decisions/2.md";
    }
    ∷ []

decisions_accepted : Clean (check_decisions wiki "r" (λ schema value label. []) pages) decisions
unfolding check_decisions check_pages check_supersession supersession_reports status_by_id
    supersedes decision_reports has shaped text_or_empty each report_all reports lift pure ◌>>=◌
    parse_frontmatter front_matter until strip truthy strict_eq to_text own prop starts_with
decisions_accepted = refl

check_decisions-IsSettled_example : All (IsSettled decisions) decisions
check_decisions-IsSettled_example =
    check_decisions-IsSettled wiki "r" (λ schema value label. []) pages decisions decisions_accepted
