-- ===== src/Lifecycle/Composite.antt =====
-- `assertComposite` and `taskPr` of scripts/task/unified-lifecycle.mjs: a task's candidate, checked and
-- handed over as a pull request.
mod Checked
mod Gated
mod Tests
use kakesu.Prelude.{
  String, Bool, true, false, not, ◌||◌, List, [], ◌∷◌, any, ◌==◌, if◌then◌else◌, ◌⧺◌,
}
use kakesu.Js.{Value, str, prop, to_text, strict_eq}
use kakesu.Result.{Result, ok, throw}
use kakesu.Scope.{is_main_managed_path}
use kakesu.Work.Node.{Node}
use kakesu.Check.Values.{is, one_of}
use kakesu.Lifecycle.Script.{Script, perform, finish, ◌>>=◌, ◌>>◌, lift, guard, handle}
use kakesu.Lifecycle.Steps.{git, run, contains, task_context, task_dir, parse_frontmatter}
use kakesu.Lifecycle.Completion.{diff_paths}

pub record Composite : Type 0 where
  pub task : Value
  pub head : String
  pub base : String
  pub files : List String

pub record Args : Type 0 where
  pub task_id : String
  -- `args.repo ?? "autotaker/kakesu"`
  pub repo : String
  -- `args.dry_run === "true"`
  pub dry_run : Bool

abbrev pub branch_of : Value → String
branch_of task = to_text (prop "branch" task)

module _ (node : Node) (root : String) where
  abbrev pub handover_of : Value → String
  handover_of task = task_dir node task ⧺ "/HANDOVER.md"

  abbrev fails_review : Value → Value → Bool
  fails_review task review =
      not (is "pass" (prop "decision" review))
      || not (strict_eq (prop "reviewer_agent" review) (prop "reviewer" (prop "assignees" task)))

  abbrev fails_qa : Value → Value → Bool
  fails_qa task qa =
      not (one_of ("pass" ∷ "accepted_with_bugs" ∷ []) (prop "decision" qa))
      || not (strict_eq (prop "qa_agent" qa) (prop "qa" (prop "assignees" task)))

  -- The checks on what was read.
  unfoldable pub check_files :
      Value → Value → Value → String → String → List String → Script Composite
  check_files task review qa head base files = do
    guard (contains (handover_of task) files) "candidate-side HANDOVER is forbidden"
    guard (any is_main_managed_path files) "PR contains main-managed paths: "
    guard (fails_review task review) "Independent REVIEW PASS is required"
    guard (fails_qa task qa) "Independent QA PASS is required"
    lift (ok (record { task = task; head = head; base = base; files = files }))

  -- What git says of the candidate.
  unfoldable pub check_head : Value → Value → Value → Value → String → Script Composite
  check_head task review qa handover head = do
    guard (not (strict_eq (prop "candidate_commit" handover) (str head)))
        "HANDOVER candidate does not match the Task branch head"
    base ← git root ("merge-base" ∷ "main" ∷ head ∷ [])
    count ← git root ("rev-list" ∷ "--count" ∷ (base ⧺ ".." ⧺ head) ∷ [])
    guard (not (count == "1"))
        "Task branch must contain exactly one candidate commit after planning"
    files ← diff_paths root base head
    check_files task review qa head base files

  -- The task's documents, and the head of its branch.
  unfoldable pub check_documents : Value → Script Composite
  check_documents task = do
    let at : String → String =
        λ file. node.path_join (node.path_join root (task_dir node task)) file
    review ← parse_frontmatter node (at "REVIEW_RESULT.md")
    qa ← parse_frontmatter node (at "QA_RESULT.md")
    handover ← parse_frontmatter node (at "HANDOVER.md")
    head ← git root ("rev-parse" ∷ branch_of task ∷ [])
    check_head task review qa handover head

  -- `assertComposite`
  unfoldable pub assert_composite : String → Script Composite
  assert_composite id = do task ← task_context node root id; check_documents task

  -- The pull request is made, and set to merge.
  unfoldable pub create_pr : Args → Composite → Script (Composite × String)
  create_pr args c = do
    url ← run root "gh" (
        "pr"
        ∷ "create"
        ∷ "--repo"
        ∷ args.repo
        ∷ "--base"
        ∷ "main"
        ∷ "--head"
        ∷ branch_of c.task
        ∷ "--title"
        ∷ (args.task_id ⧺ (": " ⧺ to_text (prop "title" c.task)))
        ∷ "--body"
        ∷ ("Composite candidate " ⧺ c.head)
        ∷ [])
    merged ← run root "gh" ("pr" ∷ "merge" ∷ url ∷ "--auto" ∷ "--merge" ∷ [])
    lift (ok (c, url))

  unfoldable pub open_pr : Args → Composite → Script (Composite × String)
  open_pr args c = do
    pushed ← git root ("push" ∷ "-u" ∷ "origin" ∷ branch_of c.task ∷ [])
    create_pr args c

  -- `taskPr`; a dry run has no URL.
  unfoldable pub task_pr : Args → Script (Composite × String)
  task_pr args = do
    c ← assert_composite args.task_id
    if args.dry_run then lift (ok (c, "")) else open_pr args c
