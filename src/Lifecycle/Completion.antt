-- ===== src/Lifecycle/Completion.antt =====
-- `completionGate` of scripts/task/unified-lifecycle.mjs: a task's candidate is merged with the
-- evidence of its completion, and pushed.
pub mod Gate
pub mod Requests
pub mod Lock
pub mod Pushes
mod Tests
use kakesu.Prelude.{
  ℕ, String, Bool, true, false, not, ◌&&◌, ◌||◌, Option, none, some, List, [], ◌∷◌, ◌++◌, any, all,
  ◌==◌, if◌then◌else◌, ◌⧺◌,
}
use Prim.Native.Char.{code}
use kakesu.Js.{Value, str, prop, to_text, strict_eq}
use kakesu.Js.Trim.{is_space}
use kakesu.Result.{Result, ok, throw}
use kakesu.Scope.{is_main_managed_path, matches, completion_allowed}
use kakesu.Work.Texts.{split}
use kakesu.Work.Node.{Node, Spawned, is_zero}
use kakesu.Check.Values.{is, one_of, text_or_empty, is_sha}
use kakesu.Check.Gates.{records_audit}
use kakesu.Check.Safety.{has_exact_keys, is_timestamp, safety_check_keys}
use kakesu.Lifecycle.Script.{
  Script, perform, finish, digest, ◌>>=◌, ◌>>◌, lift, guard, handle, only_if, under,
}
use kakesu.Lifecycle.Steps.{
  git, git_with, output, read_file, lines, changed_files, contains, distinct, is_empty,
  task_context, task_dir, parse_frontmatter, assert_main,
}
use kakesu.Lifecycle.Steps.Validation.{validate_operations}
use kakesu.Lifecycle.Evidence.{is_failure}
use kakesu.Lifecycle.Snapshot.{
  Saved, is_saved, delete, place_of, snapshot_bytes, restore_bytes, remove_unknown_untracked,
  restore_index,
}

pub record Args : Type 0 where
  pub root : String
  pub task_id : String
  pub message : String
  pub validate : Bool
  pub push : Bool
  -- `process.pid`
  pub pid : String

-- What the transaction starts from.
pub record Ready : Type 0 where
  pub candidate : String
  pub product : List String
  pub allowed : List String
  pub pre_head : String
  pub snapshot : List Saved
  pub index : String

pub record Completed : Type 0 where
  pub commit : String
  pub candidate : String
  pub changed : List String
  pub pushed : Bool
  pub retries : Option ℕ
  pub reconciled : Bool

-- `lines(text)[0]?.split(/\s+/)[0] ?? null`
abbrev first_word : String → String
first_word String.[] = ""
first_word (String.◌∷◌ c s) =
    let rest = String.◌∷◌ c (first_word s) in if is_space (code c) then "" else rest

abbrev first_of : List String → Option String
first_of [] = none
first_of (line ∷ _) = some (first_word line)

abbrev pub remote_head : Spawned → Option String
remote_head r = if is_failure r then none else first_of (lines r.stdout)

abbrev is_at : String → Option String → Bool
is_at commit none = false
is_at commit (some head) = head == commit

-- `diffPaths`
abbrev pub diff_paths : String → String → String → Script (List String)
diff_paths root base head = do
  names ← git root ("diff" ∷ "--name-only" ∷ (base ⧺ "..." ⧺ head) ∷ [])
  lift (ok (lines names))

module _ (node : Node) (json : List String → String) (args : Args) where
  abbrev document : Value → String → String
  document task file = node.path_join (node.path_join args.root (task_dir node task)) file

  -- The candidate that the HANDOVER names, which must be the head of the task's branch.
  unfoldable pub find_candidate : Value → Value → Script String
  find_candidate task handover = do
    let candidate : Value = prop "candidate_commit" handover
    guard (not (is_sha (text_or_empty candidate)))
        "completion requires a main-side HANDOVER candidate_commit"
    branch ← git args.root ("branch" ∷ "--show-current" ∷ [])
    guard (not (branch == "main")) "completion requires main"
    there ← output args.root ("cat-file" ∷ "-e" ∷ (text_or_empty candidate ⧺ "^{commit}") ∷ [])
    guard (is_failure there) "candidate commit does not exist"
    head ← git args.root ("rev-parse" ∷ to_text (prop "branch" task) ∷ [])
    guard (not (strict_eq (str head) candidate)) "HANDOVER candidate is not the Task branch head"
    lift (ok head)

  -- One commit with no main-managed file; the result is what it changes.
  unfoldable pub find_product : Value → String → Script (List String)
  find_product task candidate = do
    base ← git args.root ("merge-base" ∷ "main" ∷ candidate ∷ [])
    count ← git args.root ("rev-list" ∷ "--count" ∷ (base ⧺ ".." ⧺ candidate) ∷ [])
    guard (not (count == "1")) "candidate must be one commit after merge-base"
    product ← diff_paths args.root base candidate
    guard (any is_main_managed_path product) "candidate is not product-only: "
    let handover : String = task_dir node task ⧺ "/HANDOVER.md"
    evidence ← output args.root ("cat-file" ∷ "-e" ∷ (candidate ⧺ ":" ⧺ handover) ∷ [])
    again ← if is_failure evidence then lift (ok []) else diff_paths args.root base candidate
    guard (contains handover again) "candidate-side HANDOVER is forbidden"
    lift (ok product)

  abbrev is_checked : Value → Bool
  is_checked handover =
      has_exact_keys (prop "safety_checks" handover)
      && all (λ key. is "pass" (prop key (prop "safety_checks" handover))) safety_check_keys
      && is_timestamp node (prop "safety_checked_at" handover)

  abbrev assignee : String → Value → Value
  assignee role task = prop role (prop "assignees" task)

  unfoldable pub check_safety : Value → Value → Value → Script (Unit {0})
  check_safety task handover qa_plan = do
    guard
        (not (is "approved" (prop "status" qa_plan))
          || not (strict_eq (prop "approved_by" qa_plan) (assignee "main" task)))
        "safety_contract completion requires the approved QA PLAN from the assigned main Agent"
    guard (not (is_checked handover))
        "safety_contract completion requires the exact passed safety_checks and checked_at"

  unfoldable pub check_product : Value → Value → Script (Unit {0})
  check_product task qa_plan = do
    review ← parse_frontmatter node (document task "REVIEW_RESULT.md")
    qa ← parse_frontmatter node (document task "QA_RESULT.md")
    guard
        (not (is "pass" (prop "decision" review))
          || not (strict_eq (prop "reviewer_agent" review) (assignee "reviewer" task)))
        "completion requires independent REVIEW PASS with reviewer identity"
    text ← read_file (document task "REVIEW_RESULT.md")
    guard (not (records_audit text)) "completion requires REVIEW candidate diff and DEV check audit"
    guard
        (not (one_of ("pass" ∷ "accepted_with_bugs" ∷ []) (prop "decision" qa))
          || not (strict_eq (prop "qa_agent" qa) (assignee "qa" task)))
        "completion requires independent QA PASS"
    guard (not (is "approved" (prop "status" qa_plan))) "completion requires the approved QA PLAN"

  unfoldable pub check_quality : Value → Value → Script (Unit {0})
  check_quality task handover = do
    qa_plan ← parse_frontmatter node (document task "QA_PLAN.md")
    if is "safety_contract" (prop "change_class" task)
        then check_safety task handover qa_plan
        else check_product task qa_plan

  -- The changed files are evidence of the completion, and are saved.
  unfoldable pub save_evidence : Value → String → List String → Script Ready
  save_evidence task candidate product = do
    again ← task_context node args.root args.task_id
    let allowed : List String = completion_allowed (task_dir node again)
    pre_head ← git args.root ("rev-parse" ∷ "HEAD" ∷ [])
    changed ← changed_files args.root
    guard (not (all (λ file. matches file allowed) changed)) "completion evidence scope violation: "
    snapshot ← snapshot_bytes node args.root changed
    index ← output args.root ("diff" ∷ "--cached" ∷ "--binary" ∷ [])
    lift (
        ok (record {
          candidate = candidate;
          product = product;
          allowed = allowed;
          pre_head = pre_head;
          snapshot = snapshot;
          index = index.stdout;
        }))

  -- All that precedes the lock.
  unfoldable pub prepare_completion : Script Ready
  prepare_completion = do
    assert_main node args.root
    task ← task_context node args.root args.task_id
    staged ← git args.root ("diff" ∷ "--cached" ∷ "--name-only" ∷ "--diff-filter=ACMRD" ∷ [])
    guard (not (is_empty (lines staged)))
        "completion requires an unstaged quality evidence set; staged="
    handover ← parse_frontmatter node (document task "HANDOVER.md")
    candidate ← find_candidate task handover
    product ← find_product task candidate
    check_quality task handover
    save_evidence task candidate product
