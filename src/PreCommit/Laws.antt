-- ===== src/PreCommit/Laws.antt =====
-- What a commit that scripts/task/work-pre-commit.mjs lets through is.
use kakesu.Prelude.{String, true, false, not, ◌≡◌, refl, Option, List, [], ◌∷◌, All}
use kakesu.Js.{Value, str}
use kakesu.Result.{Result, ok, >>=-eq-ok}
use kakesu.Scope.{matches_allowed}
use kakesu.Lifecycle.Steps.{is_empty}
use kakesu.Work.Node.{Node, git}
use kakesu.Work.Digest.{changed_content_digest}
use kakesu.PreCommit.Decisions.{check_staged_decisions}
use kakesu.PreCommit.Hook.{
  is_sha256, rules_in, variable, is_parent, check_frozen, staged_names, work_allowed,
  check_complete, check_work_action, check_branch, check_wiki_action, check_content, pre_commit,
}

-- The rules that are texts.
abbrev pub texts : List Value → List String
texts [] = []
texts (str rule ∷ rules) = rule ∷ texts rules
texts (_ ∷ rules) = texts rules

-- Every file is under a rule.
abbrev pub AreAllowed : List Value → List String → Type 0
AreAllowed rules = All (λ file. matches_allowed file (texts rules) ≡ true)

pub is_empty-nil : (files : List String) → not (is_empty files) ≡ false → files ≡ []
is_empty-nil [] h = refl
is_empty-nil (f ∷ fs) h = cc

module _ (node : Node) (parse_json : String → Result Value) (env : String → Option String) where
  -- The parent that holds the lock commits files under the rules that it was given.
  abbrev pub IsWorkCommit : List String → Type 0
  IsWorkCommit staged =
      (is_parent node parse_json env ≡ true)
      × (value : Value) × (rules : List Value) × (work_allowed node parse_json env ≡ ok value)
      × (rules_in value ≡ ok rules)
      × AreAllowed rules staged

  module _ (sha256 : String → String) (repo_root root : String) where
    -- What the parts of an accepted run were given.
    abbrev pub Accepted : Type 0
    Accepted =
        (staged : List String) × (allowed : Value) × (branch : String) × (staged_names node
            parse_json env root
          ≡ ok staged)
        × (work_allowed node parse_json env ≡ ok allowed)
        × (git node root ("branch" ∷ "--show-current" ∷ []) ≡ ok branch)
        × (check_work_action node parse_json env allowed staged ≡ ok tt)
        × (check_branch node parse_json env branch ≡ ok tt)
        × (check_wiki_action node parse_json env root staged ≡ ok tt)
        × (check_staged_decisions node root staged ≡ ok tt)
        × (check_content node parse_json env sha256 repo_root root branch staged ≡ ok tt)

    pub pre_commit-Accepted :
        pre_commit node parse_json env sha256 repo_root root ≡ ok tt → Accepted
    unfolding pre_commit
    pre_commit-Accepted h =
        let (u₁, frozen, h₁) = >>=-eq-ok (check_frozen node parse_json env root) _ h in
        let (staged, listed, h₂) = >>=-eq-ok (staged_names node parse_json env root) _ h₁ in
        let (allowed, read, h₃) = >>=-eq-ok (work_allowed node parse_json env) _ h₂ in
        let (branch, named, h₄) =
          >>=-eq-ok (git node root ("branch" ∷ "--show-current" ∷ [])) _ h₃ in
        let (u₂, complete, h₅) = >>=-eq-ok (check_complete node parse_json env root) _ h₄ in
        let (u₃, work, h₆) =
          >>=-eq-ok (check_work_action node parse_json env allowed staged) _ h₅ in
        let (u₄, of_branch, h₇) = >>=-eq-ok (check_branch node parse_json env branch) _ h₆ in
        let (u₅, wiki, h₈) = >>=-eq-ok (check_wiki_action node parse_json env root staged) _ h₇ in
        let (u₆, decisions, content) = >>=-eq-ok (check_staged_decisions node root staged) _ h₈ in
        (staged, allowed, branch, listed, read, named, work, of_branch, wiki, decisions, content)

    -- The digest of the changes in the index is the one that was given.
    abbrev pub IsChecked : List String → Type 0
    IsChecked staged =
        (is_empty staged ≡ false)
        × (is_sha256 (variable node parse_json env "WORK_VALIDATED_DIGEST") ≡ true)
        × (changed_content_digest node sha256 root true
            ≡ ok (variable node parse_json env "WORK_VALIDATED_DIGEST"))

    -- Made for candidate-commit, of allowed files only, with the digest that the parent gave.
    abbrev pub IsCandidateCommit : Type 0
    IsCandidateCommit =
        (staged : List String) × (staged_names node parse_json env root ≡ ok staged)
        × (variable node parse_json env "WORK_ACTION" ≡ "candidate-commit")
        × IsWorkCommit staged
        × IsChecked staged
