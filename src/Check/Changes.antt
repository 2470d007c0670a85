-- ===== src/Check/Changes.antt =====
-- The files that a safety contract changed, in `checkSafetyContractDone` of
-- scripts/task/check-task.mjs.
use kakesu.Prelude.{
  String, Bool, false, ◌||◌, not, Option, none, some, List, [], ◌∷◌, ◌++◌, any, if◌then◌else◌, ◌⧺◌,
  ◌==◌,
}
use Prim.Native.Char.{code}
use kakesu.Js.{Value, str, num, pos, undefined, truthy, strict_eq}
use kakesu.Js.Trim.{is_space}
use kakesu.Result.{Result, ok, throw, throw_if, ◌>>=◌, ◌>>◌}
use kakesu.Work.Texts.{split, nonempty}
use kakesu.Work.Node.{Node, git}
use kakesu.Check.Contract.{Contract, is_safety_contract_path}
use kakesu.Check.Merges.{
  repository_for, default_branch, has_commit, merge_head, main_merges, matching,
}

-- A status of `git diff --name-status`, and the one file that it is about.
abbrev pub Change : Type 0
Change = String × String

-- /^[AMD]$/
abbrev pub is_plain_status : String → Bool
is_plain_status s = s == "A" || s == "M" || s == "D"

abbrev change_of : List String → Option Change
change_of (status ∷ path ∷ []) = if is_plain_status status then some (status, path) else none
change_of _ = none

-- The changes, if each is an addition, a modification or a deletion of one file.
unfoldable pub changes_of : List String → Option (List Change)
changes_of [] = some []
changes_of (line ∷ lines) =
    let rest = changes_of lines in
    elim (change_of (split 9 line)) [
      | none ↦ none
      | some c ↦ elim rest [ none ↦ none | some cs ↦ some (c ∷ cs) ]
    ]

-- The status that a map from paths to statuses holds: the last one.
unfoldable pub status_of : Value → List Change → String
status_of path [] = ""
status_of path ((status, p) ∷ cs) =
    let later = status_of path cs in
    if later == "" then (if strict_eq path (str p) then status else "") else later

abbrev pub is_declared : List Value → String → Bool
is_declared declared path = any (λ v. strict_eq v (str path)) declared

-- A generated path that is neither added nor modified.
abbrev is_missing : List Change → Value → Bool
is_missing cs path = not (status_of path cs == "A" || status_of path cs == "M")

abbrev first_missing : List Change → List Value → Value
first_missing cs [] = undefined
first_missing cs (v ∷ vs) = if is_missing cs v then v else first_missing cs vs

abbrev pub is_accepted_plan : Contract → Bool
is_accepted_plan c = elim c.errors [ [] ↦ strict_eq c.version (num (pos 2)) | _ ∷ _ ↦ false ]

unfoldable pub check_changes : Contract → List Change → Result (Unit {0})
check_changes c cs =
    if is_accepted_plan c
    then (do
      throw_if
          (any (λ change. not (is_declared (c.planned_paths ++ c.generated_paths) change.1)) cs)
          "safety_contract candidate diff includes an undeclared path: "
      throw_if (truthy (first_missing cs c.generated_paths))
          "declared generated path is missing from the candidate diff: ")
    else throw_if (any (λ change. not (is_safety_contract_path change.1)) cs)
        "safety_contract includes a product or unapproved path"

abbrev pub has_changes : Option (List Change) → Result (List Change)
has_changes (some (c ∷ cs)) = ok (c ∷ cs)
has_changes _ = throw "safety_contract includes a product or unapproved path"

unfoldable pub has_space : String → Bool
has_space String.[] = false
has_space (String.◌∷◌ c s) = is_space (code c) || has_space s

abbrev third_is : String → List String → Bool
third_is candidate (_ ∷ _ ∷ third ∷ _) = third == candidate
third_is candidate _ = false

abbrev only_merge : List (List String) → Result String
only_merge ((_ ∷ first ∷ _ ∷ []) ∷ []) = ok first
only_merge _ =
    throw "no unique main exact two-parent no-ff merge has HANDOVER candidate as its second parent"

module _ (node : Node) (root : String) where
  -- The commit that the candidate is merged into, or is being merged into.
  unfoldable pub first_parent_of : String → Value → String → Result String
  first_parent_of repository branch candidate = elim (merge_head node root repository) [
    | ok head ↦ do
      throw_if (has_space head || not (head == candidate))
          "MERGE_HEAD is not the HANDOVER candidate"
      git node repository ("rev-parse" ∷ "HEAD" ∷ [])
    | throw _ ↦ do
      merges ← main_merges node root repository branch
      found ← matching node root repository (third_is candidate) merges
      only_merge found
  ]

  -- The body of the `try`. Git writes the count of one commit as 1.
  unfoldable pub safety_candidate_merged : Contract → String → Result (Unit {0})
  safety_candidate_merged contract candidate = do
    repository ← repository_for node root
    branch ← default_branch node root
    found ← has_commit node root repository candidate
    first ← first_parent_of repository branch candidate
    base ← git node repository ("merge-base" ∷ first ∷ candidate ∷ [])
    count ← git node repository ("rev-list" ∷ "--count" ∷ (base ⧺ ".." ⧺ candidate) ∷ [])
    throw_if (not (count == "1")) "safety_contract candidate must be one commit after merge-base"
    diff ← git node repository (
        "diff" ∷ "--name-status" ∷ "--find-renames" ∷ "--find-copies-harder" ∷ base ∷ candidate
        ∷ [])
    changes ← has_changes (changes_of (nonempty (split 10 diff)))
    check_changes contract changes
