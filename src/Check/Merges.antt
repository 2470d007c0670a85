-- ===== src/Check/Merges.antt =====
-- The questions to git in scripts/task/check-task.mjs: the merge of a candidate, the files that a
-- safety contract changed, the merge of old evidence, and the worktree of a task.
use kakesu.Prelude.{
  String, Bool, true, false, ◌&&◌, ◌||◌, not, List, [], ◌∷◌, if◌then◌else◌, ◌⧺◌, ◌==◌,
}
use kakesu.Js.{Value, str, prop, to_text, truthy, strict_eq, or_else}
use kakesu.Result.{Result, ok, throw, throw_if, ◌>>=◌}
use kakesu.Work.Texts.{split, nonempty}
use kakesu.Work.Node.{Node, git}
use kakesu.Work.Documents.{read_yaml, get_text}
use kakesu.Check.Values.{is}

-- Whether a merge has exactly two parents, of which the second is the candidate.
unfoldable pub merges_candidate : Value → List String → Bool
merges_candidate candidate (_ ∷ _ ∷ second ∷ []) = strict_eq candidate (str second)
merges_candidate candidate _ = false

abbrev pub is_pending : Value → Result String → Bool
is_pending candidate (ok head) = strict_eq candidate (str head)
is_pending candidate (throw _) = false

-- The candidate is committed on the very head of main.
abbrev pub follows_head : List String → List String → Bool
follows_head (head ∷ _) (_ ∷ first ∷ []) = not (head == "") && first == head
follows_head _ _ = false

abbrev pub is_single : List (List String) → Bool
is_single (_ ∷ []) = true
is_single _ = false

module _ (node : Node) (root : String) where
  -- `repositoryFor`
  unfoldable pub repository_for : Result String
  repository_for = do
    project ← read_yaml node (node.path_join root "project.yaml")
    let configured = prop "repository_path" project
    if is "." configured || not (truthy configured)
        then ok root
        else (do path ← get_text "path must be a string" configured; ok (node.resolve root path))

  -- `project.default_branch ?? "main"`
  abbrev pub default_branch : Result Value
  default_branch = do
    project ← read_yaml node (node.path_join root "project.yaml")
    ok (or_else (prop "default_branch" project) (str "main"))

  abbrev pub parents_of : String → String → Result (List String)
  parents_of repository commit = do
    line ← git node repository ("rev-list" ∷ "--parents" ∷ "-n" ∷ "1" ∷ commit ∷ [])
    ok (split b' ' line)

  -- `merges.filter(…)`: the parents of the merges that the candidate is merged by.
  unfoldable pub matching :
      String → (List String → Bool) → List String → Result (List (List String))
  matching repository fits [] = ok []
  matching repository fits (merge ∷ merges) = do
    parents ← parents_of repository merge
    rest ← matching repository fits merges
    ok (if fits parents then parents ∷ rest else rest)

  abbrev pub main_merges : String → Value → Result (List String)
  main_merges repository branch = do
    out ← git node repository ("rev-list" ∷ "--first-parent" ∷ "--merges" ∷ to_text branch ∷ [])
    ok (nonempty (split 10 out))

  abbrev pub has_commit : String → String → Result String
  has_commit repository commit =
      git node repository ("cat-file" ∷ "-e" ∷ (commit ⧺ "^{commit}") ∷ [])

  abbrev pub merge_head : String → Result String
  merge_head repository = git node repository ("rev-parse" ∷ "MERGE_HEAD" ∷ [])

  -- The body of the `try` for a finished product task.
  unfoldable pub candidate_merged : Value → Result (Unit {0})
  candidate_merged candidate = do
    repository ← repository_for
    branch ← default_branch
    found ← has_commit repository (to_text candidate)
    if is_pending candidate (merge_head repository)
        then (do
          head ← parents_of repository "HEAD"
          parents ← parents_of repository (to_text candidate)
          throw_if (not (follows_head head parents))
              "MERGE_HEAD candidate is not pending a no-ff merge from the current main HEAD")
        else (do
          merges ← main_merges repository branch
          found ← matching repository (merges_candidate candidate) merges
          throw_if (not (is_single found))
              "no unique main no-ff merge has HANDOVER candidate as its second parent")
