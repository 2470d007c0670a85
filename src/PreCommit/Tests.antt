-- ===== src/PreCommit/Tests.antt =====
-- Commits that the hook lets through: a candidate, a context, and a decision that is superseded.
use kakesu.Prelude.{
  ℕ, String, true, Option, none, some, List, [], ◌∷◌, ◌≡◌, refl, ◌==◌, ◌&&◌, ◌||◌, all_chars,
  if◌then◌else◌, ◌⧺◌, starts_with,
}
use kakesu.Js.{Value, str, arr, obj, field, end, nil, cons, prop, own, strict_eq}
use kakesu.Js.Trim.{utf16_length, trim_start, trim_end, is_space}
use kakesu.Result.{Result, ok, throw}
use kakesu.Scope.{matches_allowed, matches_rule, directory_glob}
use kakesu.Lifecycle.Steps.{sorted, distinct}
use kakesu.Work.Texts.{split, nonempty, strip, until}
use kakesu.Work.Documents.{front_matter, parse_frontmatter}
use kakesu.Work.Digest.{changed_content_digest, listing, content_of, changes, records_of}
use kakesu.Work.Node.{Node, Spawned}
use kakesu.PreCommit.Context.{split_at, next_section, mask_section}
use kakesu.PreCommit.Decisions.{
  is_decision, check_staged_decisions, check_change, normalize_from, status_value, line_rest,
  ends_with,
}
use kakesu.PreCommit.Hook.{
  pre_commit, check_frozen, check_complete, check_work_action, check_branch, check_wiki_action,
  check_section, check_content, is_prevalidated, is_sha256, outside, matches_rules, without,
  staged_names,
}
use kakesu.PreCommit.Evidence.{IsKept, pre_commit-IsKept}

abbrev told : ℕ → String → Spawned
told status out = record { error = none; status = some status; stdout = out; stderr = "" }

-- A branch, its one staged file, and that file in HEAD.
abbrev answer : String → String → String → List String → Spawned
answer branch file old (command ∷ option ∷ rest) =
    if command == "branch"
    then told 0 branch
    else if command == "diff" && option == "--cached"
    then told 0 file
    else if command == "show"
    then told 0 old
    else told 0 ""
answer _ _ _ _ = told 0 ""

abbrev node : String → String → String → String → Node
node branch file old current = record {
  exists = λ path. path == file;
  is_file = λ path. true;
  read_text = λ path. ok current;
  realpath = λ path. ok path;
  spawn = λ root program args. answer branch file old args;
  is_absolute = λ path. starts_with path "/";
  resolve = λ root path. path;
  path_join = λ dir file. file;
  normalize = λ path. path;
  extname = λ path. ".md";
  dirname = λ path. path;
  parse_yaml = λ text. ok (
      obj (
        field "status" (str (if text == "status: accepted" then "accepted" else "superseded"))
          end));
  parse_date = λ date. none;
  ci = true;
}

abbrev digest : String
digest = "0123456789abcdef0123456789abcdef0123456789abcdef0123456789abcdef"

abbrev parse_json : String → Result Value
parse_json text = ok (arr (cons (str "core/**") nil))

abbrev task_env : String → Option String
task_env name =
    if name == "WORK_ACTION"
    then some "candidate-commit"
    else if name == "WORK_ALLOWED_PATHS"
    then some "[\"core/**\"]"
    else if name == "WORK_VALIDATED_DIGEST"
    then some digest
    else if name == "WIKI_ACTION"
    then none
    else some "1"

abbrev task_node : Node
task_node = node "task/TASK-0042" "core/a.go" "" "package core"

abbrev wiki_env : Option String → String → String → Option String
wiki_env target action name =
    if name == "WIKI_ACTION"
    then some action
    else if name == "WIKI_TARGET"
    then target
    else if name == "WORK_ACTION" || name == "WORK_ALLOWED_PATHS" || name == "WORK_VALIDATED_DIGEST"
    then none
    else some "1"

abbrev plan : String → String
plan context = "# Plan\n## 関連Wikiと判断\n" ⧺ context ⧺ "\n## Steps\n"

abbrev plan_node : Node
plan_node = node "main" "tasks/a/PLAN.md" (plan "none") (plan "wiki/semantic/a.md")

abbrev plan_env : String → Option String
plan_env = wiki_env (some "tasks/a/PLAN.md") "context-plan"

abbrev decision : String → String
decision status = "---\nstatus: " ⧺ status ⧺ "\n---\n# Use antt\n"

abbrev decision_node : Node
decision_node = node "main" "wiki/decisions/D-1.md" (decision "accepted") (decision "superseded")

abbrev ingest_env : String → Option String
ingest_env = wiki_env none "ingest"

decision_accepted :
    pre_commit decision_node parse_json ingest_env (λ s. digest) "/repo" "/r" ≡ ok tt
unfolding pre_commit check_frozen check_complete check_work_action check_branch check_wiki_action
    check_section check_staged_decisions check_change check_content is_prevalidated is_sha256
    outside matches_rules without changed_content_digest listing content_of changes records_of
    sorted distinct split nonempty matches_allowed matches_rule directory_glob starts_with all_chars
    utf16_length trim_start trim_end strip split_at next_section mask_section normalize_from
    status_value line_rest ends_with front_matter until parse_frontmatter is_space prop own
    strict_eq
decision_accepted = refl

pre_commit-IsKept_example : IsKept decision_node "/r" "wiki/decisions/D-1.md"
pre_commit-IsKept_example =
    pre_commit-IsKept decision_node parse_json ingest_env (λ s. digest) "/repo" "/r"
      "wiki/decisions/D-1.md" listed refl is_one refl decision_accepted
  where
    listed :
        staged_names decision_node parse_json ingest_env "/r" ≡ ok ("wiki/decisions/D-1.md" ∷ [])
    listed = unfold trim_start trim_end is_space split nonempty in refl

    is_one : is_decision "wiki/decisions/D-1.md" ≡ true
    is_one = unfold starts_with ends_with in refl

-- A change beside the section is refused.
plan_refused :
    check_section
      (node "main" "tasks/a/PLAN.md" (plan "none") (plan "a" ⧺ "more"))
      parse_json
      plan_env
      "/r"
      "context-plan"
      "tasks/a/PLAN.md"
    ≡ throw "tasks/a/PLAN.md: "
unfolding check_section mask_section split_at next_section strip
plan_refused = refl
