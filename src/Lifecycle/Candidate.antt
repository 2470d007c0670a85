-- ===== src/Lifecycle/Candidate.antt =====
-- `scopeCheck` and `assertComposite` of scripts/task/unified-lifecycle.mjs.
pub mod Laws
pub mod Merge
mod Tests
use kakesu.Prelude.{
  ℕ, String, Bool, true, false, ◌&&◌, ◌||◌, not, Option, none, some, List, [], ◌∷◌, any, all_chars,
  nat_eq, if◌then◌else◌, ◌==◌, ◌⧺◌,
}
use kakesu.Js.{Value, str, null, arr, nil, items, prop, or_else, strict_eq, to_text}
use kakesu.Result.{Result, ok, throw, ◌>>=◌, ◌>>◌, throw_if}
use kakesu.Lifecycle.Repository.{Git, front_matter}
use kakesu.Scope.{is_main_managed_path, matches, completion_allowed}

pub record Args : Type 0 where
  pub event : String
  pub base : Option String
  pub head : String
  pub allow_merge : Option String

-- The files of the change, and the task and the candidate of a merge.
pub record Verdict : Type 0 where
  pub files : List String
  pub merge : Option (Value × String)

-- /^0+$/
abbrev pub is_zeros : String → Bool
is_zeros s = not (s == "") && all_chars (nat_eq b'0') s

-- `before`; without --base git is given no revision and fails.
abbrev pub before_of : Args → Result String
before_of args = elim args.base [
  | none ↦ throw "--base is missing"
  | some b ↦ ok (if is_zeros b then args.head ⧺ "^" else b)
]

abbrev handover_of : Value → String
handover_of task = to_text (prop "task_dir" task) ⧺ "/HANDOVER.md"

abbrev pub contains : String → List String → Bool
contains file files = any (λ f. f == file) files

abbrev pub tasks_of : Value → Result (List Value)
tasks_of backlog = elim (or_else (prop "tasks" backlog) (arr nil)) [
  | arr vs ↦ ok (items vs)
  | _ ↦ throw "filter is not a function"
]

-- Managed files that the evidence of the task does not cover.
abbrev pub is_unapproved : Value → String → Bool
is_unapproved task file =
    is_main_managed_path file
    && not (matches file (completion_allowed (to_text (prop "task_dir" task))))

abbrev pub only_task : List Value → Result Value
only_task (t ∷ []) = ok t
only_task _ = throw "Merge commit is not bound to exactly one Task HANDOVER candidate: "

abbrev pub check_direct : List String → Result Verdict
check_direct files = do
  throw_if (any (λ file. not (is_main_managed_path file)) files)
      "Direct main push contains product paths: "
  ok (record { files = files; merge = none })

abbrev allows_merge : Option String → Bool
allows_merge none = false
allows_merge (some t) = t == "true"

-- A task whose HANDOVER cannot be read is not bound to the candidate.
abbrev pub is_candidate : String → Result Value → Bool
is_candidate candidate (ok v) = strict_eq v (str candidate)
is_candidate candidate (throw _) = false

module _ (git : Git) where
  -- The candidate that the HANDOVER of a task names at a commit.
  unfoldable pub bound_candidate : String → Value → Result Value
  bound_candidate commit task = do
    content ← git.show commit (handover_of task)
    elim (front_matter content) [
      | none ↦ ok null
      | some text ↦ do document ← git.parse_yaml text; ok (prop "candidate_commit" document)
    ]

  abbrev pub is_bound : String → String → Value → Bool
  is_bound commit candidate task = is_candidate candidate (bound_candidate commit task)

  unfoldable pub bound_tasks : String → String → List Value → List Value
  bound_tasks commit candidate [] = []
  bound_tasks commit candidate (t ∷ ts) =
      let rest = bound_tasks commit candidate ts in
      if is_bound commit candidate t then t ∷ rest else rest

  unfoldable pub check_merge : List String → String → String → String → Result Verdict
  check_merge files head first_parent candidate = do
    text ← git.show first_parent "backlog.yaml"
    backlog ← git.parse_yaml text
    tasks ← tasks_of backlog
    task ← only_task (bound_tasks first_parent candidate tasks)
    candidate_base ← git.merge_base first_parent candidate
    commits ← git.rev_list_count candidate_base candidate
    throw_if (not (nat_eq commits 1)) "Merge candidate must be one commit after planning"
    candidate_files ← git.diff_paths candidate_base candidate
    throw_if (contains (handover_of task) candidate_files)
        "Merge candidate contains candidate-side HANDOVER"
    throw_if (any is_main_managed_path candidate_files)
        "Merge candidate contains main-managed paths: "
    merged ← git.diff_paths first_parent head
    throw_if (any (is_unapproved task) merged)
        "Merge commit changes unapproved main-managed paths: "
    ok (record { files = files; merge = some (prop "id" task, candidate) })

  abbrev pub check_main : List String → Args → List String → Result Verdict
  check_main files args (_ ∷ first_parent ∷ candidate ∷ []) =
      if allows_merge args.allow_merge
      then check_merge files args.head first_parent candidate
      else check_direct files
  check_main files args _ = check_direct files

  -- `scopeCheck`
  unfoldable pub scope_check : Args → Result Verdict
  scope_check args = do
    before ← before_of args
    if args.event == "pr"
        then (do
          files ← git.diff_paths before args.head
          throw_if (any is_main_managed_path files) "PR scope contains main-managed paths: "
          ok (record { files = files; merge = none }))
        else (do
          files ← git.diff_names before args.head
          if args.event == "main"
              then (do parents ← git.rev_list_parents args.head; check_main files args parents)
              else throw "--event must be pr or main")
