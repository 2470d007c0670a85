-- ===== src/Check/Worktrees.antt =====
-- The branch and the worktree of a task, and the merge of evidence from before candidate commits, in
-- `checkTask` of scripts/task/check-task.mjs.
use kakesu.Prelude.{
  String, Bool, true, false, ◌&&◌, ◌||◌, not, Option, none, some, List, [], ◌∷◌, any, if◌then◌else◌,
  ◌⧺◌, ◌==◌, nat_eq,
}
use Prim.Native.Char.{Char, code}
use kakesu.Js.{Value, str, prop, to_text, truthy, strict_eq}
use kakesu.Result.{Result, ok, throw, throw_if, ◌>>=◌, ◌>>◌}
use kakesu.Work.Texts.{split, strip, includes}
use kakesu.Work.Node.{Node, git}
use kakesu.Work.Documents.{read_yaml, resolve_inside, is_slug}
use kakesu.Check.Values.{text_or_empty}
use kakesu.Check.Merges.{repository_for, parents_of, has_commit}

-- `^task/${taskId}-[a-z0-9]+(?:-[a-z0-9]+)*$`, for the directory before the first slash.
abbrev pub is_task_place : String → String → Value → Bool
is_task_place directory id v = elim (strip (directory ⧺ "/" ⧺ id ⧺ "-") (text_or_empty v)) [
  | some slug ↦ is_slug slug
  | none ↦ false
]

abbrev add_char : Char → List String → List String
add_char c [] = String.◌∷◌ c String.[] ∷ []
add_char c (b ∷ bs) = String.◌∷◌ c b ∷ bs

-- `records.split("\n\n")`
unfoldable pub split_records : String → List String
split_records String.[] = "" ∷ []
split_records (String.◌∷◌ c String.[]) = String.◌∷◌ c String.[] ∷ []
split_records (String.◌∷◌ c (String.◌∷◌ d s)) = elim (nat_eq (code c) 10 && nat_eq (code d) 10) [
  | true ↦ "" ∷ split_records s
  | false ↦ add_char c (split_records (String.◌∷◌ d s))
]

-- The directory of the first line that names one.
abbrev pub location : List String → Option String
location [] = none
location (line ∷ lines) = elim (strip "worktree " line) [
  | some place ↦ some place
  | none ↦ location lines
]

abbrev same_place : String → Result String → Bool
same_place real (ok place) = place == real
same_place real (throw _) = false

module _ (node : Node) (root : String) where
  -- A record of `git worktree list --porcelain` for the branch at the given directory.
  unfoldable pub is_registered : String → String → String → Bool
  is_registered branch real entry = elim (location (split 10 entry)) [
    | none ↦ false
    | some place ↦
        includes ("branch refs/heads/" ⧺ branch) entry && same_place real (node.realpath place)
  ]

  -- The body of the `try`: the branch exists and is checked out in the worktree.
  unfoldable pub worktree_registered : Value → String → Result (Unit {0})
  unfolding split_records
  worktree_registered task id = do
    project ← read_yaml node (node.path_join root "project.yaml")
    repository ← repository_for node root
    assigned ← resolve_inside node root (prop "worktree" task) (id ⧺ " worktree")
    let branch = to_text (prop "branch" task)
    reference ← git node repository ("show-ref" ∷ "--verify" ∷ ("refs/heads/" ⧺ branch) ∷ [])
    records ← git node repository ("worktree" ∷ "list" ∷ "--porcelain" ∷ [])
    real ← node.realpath assigned
    throw_if
        (not (node.exists assigned)
          || not (any (is_registered branch real) (split_records records)))
        "missing registered worktree"

  abbrev ancestor : String → Value → Value → Result String
  ancestor repository a b =
      git node repository ("merge-base" ∷ "--is-ancestor" ∷ to_text a ∷ to_text b ∷ [])

  -- A commit with exactly two parents, the second of which was reviewed.
  abbrev pub merges_reviewed : Value → Value → List String → Bool
  merges_reviewed merged reviewed (merge ∷ first ∷ second ∷ []) =
      strict_eq merged (str merge)
      && not (first == "")
      && not (second == "")
      && strict_eq reviewed (str second)
  merges_reviewed merged reviewed _ = false

  -- The body of the `try` for evidence from before candidate commits.
  unfoldable pub reviewed_merged : Value → Value → Value → Result (Unit {0})
  reviewed_merged task review qa = do
    let merged = prop "merged_commit" task
    let tested = prop "tested_commit" qa
    repository ← repository_for node root
    project ← read_yaml node (node.path_join root "project.yaml")
    let branch = prop "default_branch" project
    found ← has_commit node root repository (to_text merged)
    contained ← ancestor repository merged branch
    parents ← parents_of node root repository (to_text merged)
    if truthy (prop "bootstrap_exception" task)
        then throw_if (not (strict_eq (prop "reviewed_commit" review) merged))
            "bootstrap merged_commit mismatch"
        else throw_if (not (merges_reviewed merged (prop "reviewed_commit" review) parents))
            "merged_commit is not an exact two-parent no-ff merge of reviewed_commit"
    if truthy tested
        then (do
          found ← has_commit node root repository (to_text tested)
          after_merge ← ancestor repository merged tested
          on_main ← ancestor repository tested branch
          ok tt)
        else ok tt
