-- ===== src/Lifecycle/Candidate/Tests.antt =====
-- A repository with one task and its merged candidate, and the theorem at it.
use kakesu.Prelude.{
  ◌≡◌, refl, [], ◌∷◌, none, some, if◌then◌else◌, ◌==◌, starts_with, ends_with_char, all_chars,
}
use kakesu.Js.{Value, str, arr, obj, field, end, nil, cons, prop, own, to_text, strict_eq}
use kakesu.Result.{ok, throw}
use kakesu.Lifecycle.Repository.{Git, after_newline, after_rule, body, front_matter}
use kakesu.Lifecycle.Candidate.{
  Args, Verdict, bound_candidate, bound_tasks, check_merge, scope_check,
}
use kakesu.Lifecycle.Candidate.Laws.{IsScoped, scope_check-IsScoped}
use kakesu.Scope.{matches, is_main_managed_path}

abbrev backlog : Value
backlog = obj (
    field "tasks"
      (arr (
        cons
          (obj (field "id" (str "TASK-0007") (field "task_dir" (str "tasks/TASK-0007-store") end)))
          nil))
      end)

-- c2 merges the candidate c1 into c0.
abbrev git : Git
git = record {
  diff_paths = λ a b.
      if b == "c1"
      then ok ("core/store.go" ∷ [])
      else ok ("core/store.go" ∷ "tasks/TASK-0007-store/QA_RESULT.md" ∷ []);
  diff_names = λ a b. ok ("core/store.go" ∷ "tasks/TASK-0007-store/QA_RESULT.md" ∷ []);
  rev_list_parents = λ c. ok ("c2" ∷ "c0" ∷ "c1" ∷ []);
  rev_list_count = λ a b. ok 1;
  merge_base = λ a b. ok "c0";
  rev_parse = λ r. ok "c1";
  show = λ c path.
      if path == "backlog.yaml"
      then ok "tasks"
      else ok "---\ncandidate_commit: c1\n---\n# Handover\n";
  parse_yaml = λ text.
      if text == "tasks" then ok backlog else ok (obj (field "candidate_commit" (str "c1") end));
}

abbrev args : Args
args = record { event = "main"; base = some "c0"; head = "c2"; allow_merge = some "true" }

abbrev verdict : Verdict
verdict = record {
  files = "core/store.go" ∷ "tasks/TASK-0007-store/QA_RESULT.md" ∷ [];
  merge = some (str "TASK-0007", "c1");
}

merge_accepted : scope_check git args ≡ ok verdict
unfolding scope_check check_merge bound_tasks bound_candidate front_matter after_newline after_rule
    body prop own to_text strict_eq matches is_main_managed_path starts_with ends_with_char
    all_chars
merge_accepted = refl

product_refused :
    scope_check git (record { event = "main"; base = some "c0"; head = "c2"; allow_merge = none })
    ≡ throw "Direct main push contains product paths: "
unfolding scope_check is_main_managed_path starts_with ends_with_char all_chars
product_refused = refl

scope_check-IsScoped_example : IsScoped git args verdict
scope_check-IsScoped_example = scope_check-IsScoped git args verdict merge_accepted
