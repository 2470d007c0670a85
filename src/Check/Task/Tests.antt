-- ===== src/Check/Task/Tests.antt =====
-- A repository with a finished product task and a finished safety contract, and the theorems at
-- them.
use kakesu.Prelude.{
  String, true, false, ◌≡◌, refl, Option, none, some, List, [], ◌∷◌, if◌then◌else◌, ◌==◌, ◌⧺◌,
  starts_with, ends_with_char, all_chars,
}
use kakesu.Js.{
  Value, Fields, bool, num, pos, str, arr, obj, field, end, nil, cons, prop, own, to_text,
  strict_eq, truthy,
}
use kakesu.Js.Trim.{utf16_length, trim_end, trim_start, is_space}
use kakesu.Scope.{is_task_id}
use kakesu.Result.{ok}
use kakesu.Routing.Selection.{validate_dev_selection, promote, check_promotion}
use kakesu.Work.Texts.{strip, until, includes, split, nonempty}
use kakesu.Work.Node.{Node, Spawned}
use kakesu.Work.Documents.{front_matter, task_by_id, find_id, parse_frontmatter, resolve_inside}
use kakesu.Check.Findings.{
  ◌>>=◌, pure, lift, reports, only_if, attempt, report_all, steps, each, errors_of,
}
use kakesu.Check.Values.{text_or_empty, is_sha, has_field}
use kakesu.Check.Contract.{
  first_repeat, is_repository_file_path, path_error, path_errors, validate_safety_contract_plan,
}
use kakesu.Check.Contract.Laws.{IsContract, validate_safety_contract_plan-IsContract}
use kakesu.Check.Legacy.{has_legacy_completion_binding, front_matter_text, committed_binding}
use kakesu.Check.Merges.{merges_candidate, repository_for, matching, candidate_merged}
use kakesu.Check.Gates.{starts_with_word, includes_word, then_check, includes_make_check}
use kakesu.Check.Phases.{
  check_legacy, check_worktree, check_dev_gate, check_legacy_review, check_review,
}
use kakesu.Check.Task.{
  check_qa_gate, check_legacy_done, check_candidate_done, check_done, preflight, gates, check_task,
}
use kakesu.Check.Task.Separation.{IsWorkable, check_task-IsWorkable}

abbrev candidate : String
candidate = "0123456789012345678901234567890123456789"

abbrev pub named : List (String × String) → Fields → Fields
named [] rest = rest
named ((k, v) ∷ ps) rest = field k (str v) (named ps rest)

-- The front matter of the plans and the results.
abbrev common : Fields → Value
common rest = obj (
    named
      (("task_id", "TASK-0042")
        ∷ ("status", "approved")
        ∷ ("approved_by", "main")
        ∷ ("approved_at", "2026-01-01")
        ∷ ("planner_agent", "planner")
        ∷ ("qa_agent", "qa")
        ∷ ("reviewer_agent", "reviewer")
        ∷ ("decision", "pass")
        ∷ ("tested_at", "2026-01-03")
        ∷ ("implementation_reviewed_at", "2026-01-02")
        ∷ ("approved_dev_profile", "sol-high")
        ∷ ("approved_dev_profile_reason", "measured")
        ∷ ("change_class", "safety_contract")
        ∷ ("classification_approved_by", "main")
        ∷ ("classification_approval_reason", "rules only")
        ∷ ("classification_approved_at", "2026-01-01")
        ∷ [])
      (field "approved_dev_profile_risk_signals" (arr (cons (str "race") nil))
        (field "dev_profile_promotions" (arr nil) (field "expectation_changed" (bool false) rest))))

abbrev contract_plan : Value
contract_plan = common (
    field "safety_contract_version" (num (pos 2)) (
      field "safety_contract_planned_paths" (arr (cons (str "docs/development/rules.md") nil)) (
        field "safety_contract_generated_paths" (arr (cons (str "docs/99-glossary-index.md") nil))
          end)))

abbrev handover : Value
handover = obj (
    named
      (("task_id", "TASK-0042")
        ∷ ("status", "complete")
        ∷ ("completed_at", "2026-01-04")
        ∷ ("candidate_commit", candidate)
        ∷ ("safety_checked_at", "2026-01-04")
        ∷ [])
      (field "safety_checks"
        (obj (
          named
            (("process_tests", "pass")
              ∷ ("contract_scope", "pass")
              ∷ ("docs_lint", "pass")
              ∷ ("make_check", "pass")
              ∷ [])
            end))
        end))

abbrev document_at : String → Value
document_at path =
    if path == "r/p/HANDOVER.md"
    then handover
    else if path == "r/s/HANDOVER.md"
    then handover
    else if path == "r/s/PLAN.md"
    then contract_plan
    else if starts_with path "r/d/"
    then obj (named (("task_id", "TASK-0041") ∷ []) end)
    else if starts_with path "r/"
    then common end
    else obj end

-- The candidate is on main by the merge m of it into a.
abbrev answer : List String → Option String
answer (program ∷ option ∷ rest) =
    if program == "cat-file"
    then some ""
    else if program == "merge-base"
    then some "b"
    else if program == "diff"
    then some "M\tdocs/development/rules.md\nA\tdocs/99-glossary-index.md\n"
    else if option == "--first-parent"
    then some "m\n"
    else if option == "--parents"
    then some ("m a " ⧺ candidate ⧺ "\n")
    else if option == "--count"
    then some "1\n"
    else none
answer _ = none

abbrev spawned : Option String → Spawned
spawned (some out) = record { error = none; status = some 0; stdout = out; stderr = "" }
spawned none = record { error = none; status = some 1; stdout = ""; stderr = "fatal" }

abbrev pub node : Node
node = record {
  exists = λ path. true;
  is_file = λ path. true;
  read_text = λ path.
      ok ("---\n" ⧺ path ⧺ "\n---\ncandidate, DEV. 製品コード、test、runtime/build設定、Schema、製品依存、挙動\n");
  realpath = λ path. ok path;
  spawn = λ root program args. spawned (answer args);
  is_absolute = λ path. starts_with path "/";
  resolve = λ root path. root ⧺ "/" ⧺ path;
  path_join = λ dir file. dir ⧺ "/" ⧺ file;
  normalize = λ path. path;
  extname = λ path. ".md";
  dirname = λ path. path;
  parse_yaml = λ text. ok (document_at text);
  parse_date = λ date. some (pos 0);
  ci = true;
}

abbrev pub task : String → Fields → Value
task dir rest = obj (
    named
      (("id", "TASK-0042")
        ∷ ("status", "done")
        ∷ ("task_dir", dir)
        ∷ ("branch", "task/TASK-0042-store")
        ∷ ("worktree", "worktrees/TASK-0042-store")
        ∷ [])
      (field "assignees"
        (obj (
          named
            (("main", "main")
              ∷ ("planner", "planner")
              ∷ ("dev", "dev sol-high")
              ∷ ("reviewer", "reviewer")
              ∷ ("qa", "qa")
              ∷ [])
            end))
        rest))

abbrev product : Value
product = task "p" end

abbrev safety : Value
safety = task "s" (field "change_class" (str "safety_contract") end)

abbrev backlog : Value → Value
backlog t = obj (field "tasks" (arr (cons t nil)) end)

product_accepted : check_task node "r" (backlog product) "TASK-0042" "full" ≡ []
unfolding check_task preflight gates check_done check_candidate_done check_legacy_done check_qa_gate
    check_review check_legacy_review check_dev_gate check_worktree check_legacy includes_make_check
    then_check includes_word starts_with_word candidate_merged matching repository_for
    merges_candidate committed_binding front_matter_text has_legacy_completion_binding
    validate_safety_contract_plan has_field is_sha text_or_empty errors_of each steps report_all
    attempt only_if reports lift pure ◌>>=◌ resolve_inside parse_frontmatter task_by_id find_id
    front_matter nonempty split includes until strip check_promotion promote validate_dev_selection
    utf16_length truthy strict_eq to_text own prop all_chars ends_with_char starts_with is_task_id
    trim_end trim_start is_space
product_accepted = refl

check_task-IsWorkable_example : IsWorkable node "r" "TASK-0042" product
unfolding task_by_id find_id prop own strict_eq truthy
check_task-IsWorkable_example =
    check_task-IsWorkable node "r" (backlog product) "TASK-0042" product refl refl refl
      product_accepted

validate_safety_contract_plan-IsContract_example :
    IsContract node
      (validate_safety_contract_plan node contract_plan (str "safety_contract") "TASK-0042")
unfolding validate_safety_contract_plan path_errors path_error is_repository_file_path first_repeat
    has_field prop own strict_eq starts_with ends_with_char all_chars split
validate_safety_contract_plan-IsContract_example =
    validate_safety_contract_plan-IsContract node contract_plan (str "safety_contract") "TASK-0042"
      refl refl
