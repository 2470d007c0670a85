-- ===== src/Lifecycle/Steps.antt =====
-- The steps that the transactions of scripts/task/unified-lifecycle.mjs share: git, files, the
-- task, the rules of an action and the main worktree. Paths and YAML are those of `Node`, which
-- depend on nothing; files are read by requests.
pub mod Planning
pub mod Validation
pub mod Requests
use kakesu.Prelude.{
  String, Bool, true, false, not, ◌&&◌, ◌||◌, Option, none, some, List, [], ◌∷◌, ◌++◌, any, all,
  ◌==◌, if◌then◌else◌, ◌⧺◌, starts_with,
}
use Prim.Native.Nat.{Ordering}
use Prim.Native.String.{compare}
use kakesu.Js.{Value, str, prop, to_text, strict_eq}
use kakesu.Result.{Result, ok, throw}
use kakesu.Scope.{matches, allowed_for, allowed_in}
use kakesu.Routing.Selection.{validate_dev_selection}
use kakesu.Work.Texts.{split, nonempty}
use kakesu.Work.Node.{Node, Spawned, finished, is_zero}
use kakesu.Work.Documents.{front_matter, task_by_id, assert_task_id, resolve_inside}
use kakesu.Check.Values.{is, one_of, text_or_empty, is_sha}
use kakesu.Check.Worktrees.{split_records, location}
use kakesu.Lifecycle.Script.{
  Script, perform, finish, spawn, exists, read_text, realpath, ◌>>=◌, ◌>>◌, lift, guard, handle,
  only_if,
}

-- `git` of lib.mjs, and `output` where a failure is allowed.
abbrev pub git_with : String → List String → List (String × String) → Script String
git_with root args env = perform (spawn root "git" args env) (λ r. finish (finished r))

abbrev pub git : String → List String → Script String
git root args = git_with root args []

abbrev pub started : Spawned → Result Spawned
started r = elim r.error [ some e ↦ throw e | none ↦ ok r ]

abbrev pub output : String → List String → Script Spawned
output root args = perform (spawn root "git" args []) (λ r. finish (started r))

abbrev pub run : String → String → List String → Script String
run root program args = perform (spawn root program args []) (λ r. finish (finished r))

abbrev pub file_exists : String → Script Bool
file_exists path = perform (exists path) (λ b. finish (ok b))

abbrev pub read_file : String → Script String
read_file path = perform (read_text path) (λ r. finish r)

abbrev pub real_path : String → Script String
real_path path = perform (realpath path) (λ r. finish r)

-- `lines`
abbrev pub lines : String → List String
lines text = nonempty (split 10 text)

abbrev pub is_empty : List String → Bool
is_empty [] = true
is_empty (_ ∷ _) = false

abbrev pub contains : String → List String → Bool
contains file files = any (λ f. f == file) files

-- `[...new Set(files)]`
unfoldable pub distinct : List String → List String
distinct [] = []
distinct (f ∷ fs) = f ∷ others f (distinct fs)
  where
    others : String → List String → List String
    others f [] = []
    others f (g ∷ gs) = let rest = others f gs in if g == f then rest else g ∷ rest

abbrev insert : String → List String → List String
insert f [] = f ∷ []
insert f (g ∷ gs) =
    let later = g ∷ insert f gs in elim (compare f g) [ Ordering.gt ↦ later | _ ↦ f ∷ g ∷ gs ]

-- `files.sort()`, by code points.
unfoldable pub sorted : List String → List String
sorted [] = []
sorted (f ∷ fs) = insert f (sorted fs)

-- `changedFiles`
unfoldable pub changed_files : String → Script (List String)
changed_files root = do
  unstaged ← git root ("diff" ∷ "--name-only" ∷ "--diff-filter=ACMRD" ∷ [])
  staged ← git root ("diff" ∷ "--cached" ∷ "--name-only" ∷ "--diff-filter=ACMRD" ∷ [])
  others ← git root ("ls-files" ∷ "--others" ∷ "--exclude-standard" ∷ [])
  lift (ok (sorted (distinct (lines unstaged ++ lines staged ++ lines others))))

module _ (node : Node) where
  unfoldable pub read_yaml : String → Script Value
  read_yaml file = do text ← read_file file; lift (node.parse_yaml text)

  abbrev matter_of : String → Result Value
  matter_of content = elim (front_matter content) [
    | none ↦ throw "missing YAML frontmatter"
    | some text ↦ node.parse_yaml text
  ]

  unfoldable pub parse_frontmatter : String → Script Value
  parse_frontmatter file = do content ← read_file file; lift (matter_of content)

  -- `taskContext`: the task, which has its directory.
  unfoldable pub task_context : String → String → Script Value
  task_context root id = do
    lift (assert_task_id (str id))
    backlog ← read_yaml (node.path_join root "backlog.yaml")
    lift (task_by_id backlog id)

  abbrev pub task_dir : Value → String
  task_dir task = to_text (prop "task_dir" task)

  abbrev bootstrap_manifest : String
  bootstrap_manifest = "tasks/TASK-0033-unify-work-repository/BOOTSTRAP_MANIFEST.json"

  abbrev is_standing : String → Bool
  is_standing action = action == "bootstrap" || action == "task-start-rollback" || action == "wiki"

  -- `allowedFor`, whose first three actions do not read the backlog.
  unfoldable pub rules_for : String → String → String → Script (List String)
  rules_for root action id =
      if is_standing action
      then (do
        manifest ←
            if action == "bootstrap" && id == "TASK-0033"
            then file_exists (node.path_join root bootstrap_manifest)
            else lift (ok false)
        lift (allowed_for manifest [] action id))
      else (do task ← task_context root id; lift (allowed_in action (task_dir task)))

  -- `findMainWorktree`; git prints absolute places.
  unfoldable pub main_in : List String → Result String
  main_in [] = throw "The repository has no registered main worktree"
  main_in (entry ∷ entries) =
      let rest = main_in entries in
      if contains "branch refs/heads/main" (split 10 entry)
      then elim (location (split 10 entry)) [
        | some place ↦ if place == "" then rest else ok (node.resolve "/" place)
        | none ↦ rest
      ]
      else rest

  abbrev pub on_main : String → Script (Unit {0})
  on_main root = do
    branch ← git root ("branch" ∷ "--show-current" ∷ [])
    guard (not (branch == "main")) "Evidence writes require the explicit main worktree"

  -- `assertMain`
  unfoldable pub assert_main : String → Script (Unit {0})
  unfolding split_records
  assert_main root = do
    on_main root
    records ← git root ("worktree" ∷ "list" ∷ "--porcelain" ∷ [])
    registered ← lift (main_in (split_records records))
    place ← real_path registered
    own ← real_path root
    guard (not (place == own)) "Explicit root is not the registered main worktree: "
