-- ===== src/PreCommit/Evidence.antt =====
-- What an accepted commit leaves as it was: the contexts' surroundings, and the decisions.
use kakesu.Prelude.{
  String, true, false, not, ◌&&◌, ◌≡◌, Option, List, [], ◌∷◌, All, ◌==◌, eq_iff, arith, Bool-cases,
  inl, inr, ◌⊎◌, ◌⧺◌, not-eq-false,
}
use kakesu.Js.{Value, prop}
use kakesu.Result.{Result, ok, >>=-eq-ok, throw_if-ok, throw_if-eq-ok}
use kakesu.Lifecycle.Steps.{contains}
use kakesu.Work.Node.{Node, Spawned, is_zero}
use kakesu.Work.Documents.{parse_frontmatter}
use kakesu.Check.Values.{is}
use kakesu.PreCommit.Context.Laws.{IsMasked}
use kakesu.PreCommit.Decisions.{
  is_decision, normalize_status, old_metadata, check_change, check_staged_decisions,
}
use kakesu.PreCommit.Hook.{heading_of, is_parent, staged_names, pre_commit}
use kakesu.PreCommit.Laws.{pre_commit-Accepted}

-- What HEAD has of a file.
abbrev pub in_head : Node → String → String → Spawned
in_head node root file = node.spawn root "git" ("show" ∷ ("HEAD:" ⧺ file) ∷ [])

module _ (node : Node) (root : String) where
  -- A decision is not deleted; a superseded one is not touched, and another one becomes superseded
  -- with nothing changed but its status.
  abbrev pub IsKept : String → Type 0
  IsKept file =
      (current : String) × (node.exists (node.path_join root file) ≡ true)
      × (node.read_text (node.path_join root file) ≡ ok current)
      × (metadata : Value) × (old_metadata node (in_head node root file).stdout ≡ ok metadata)
      × (((is "superseded" (prop "status" metadata) ≡ true)
            × ((in_head node root file).stdout ≡ current))
          ⊎ ((is "superseded" (prop "status" metadata) ≡ false)
              × (normalize_status (in_head node root file).stdout ≡ normalize_status current)
              × (after : Value) × (parse_frontmatter node (node.path_join root file) ≡ ok after)
              × (is "superseded" (prop "status" after) ≡ true)))

  check_change-IsKept :
      (file : String)
      → check_change node root file (in_head node root file).stdout ≡ ok tt
      → IsKept file
  unfolding check_change
  check_change-IsKept file h =
      let before : String = (in_head node root file).stdout in
      let place : String = node.path_join root file in
      let (metadata, parsed, h₁) = >>=-eq-ok (old_metadata node before) _ h in
      let (there, h₂) = throw_if-eq-ok (not (node.exists place)) _ _ h₁ in
      let (current, read, h₃) = >>=-eq-ok (node.read_text place) _ h₂ in
      (
        current,
        not-eq-false _ there,
        read,
        metadata,
        parsed,
        elim (Bool-cases (is "superseded" (prop "status" metadata))) [
          | inl old ↦
              let same = throw_if-ok (not (before == current)) _ (rw old at h₃) in
              inl (old, (eq_iff before current).0 (not-eq-false _ same))
          | inr old ↦
              let rest = rw old at h₃ in
              let a : String = normalize_status before in
              let b : String = normalize_status current in
              let (same, h₄) = throw_if-eq-ok (not (a == b)) _ _ rest in
              let (after, found, h₅) = >>=-eq-ok (parse_frontmatter node place) _ h₄ in
              inr (
                old,
                (eq_iff a b).0 (not-eq-false _ same),
                after,
                found,
                not-eq-false _ (throw_if-ok _ _ h₅),
              )
        ],
      )

  check_staged_decisions-IsKept :
      (file : String) (files : List String)
      → check_staged_decisions node root files ≡ ok tt
      → contains file files ≡ true
      → is_decision file ≡ true
      → is_zero (in_head node root file).status ≡ true
      → IsKept file
  unfolding check_staged_decisions
  check_staged_decisions-IsKept file [] h member decision old = cc
  check_staged_decisions-IsKept file (f ∷ fs) h member decision old =
      elim (Bool-cases (f == file)) [
        | inl e ↦
            let same : f ≡ file = (eq_iff f file).0 e in
            let checked : (is_decision f && is_zero (in_head node root f).status) ≡ true =
              rw same (ground arith) in
            let (u, here, rest) =
              >>=-eq-ok (check_change node root f (in_head node root f).stdout) _
                (rw checked at h) in
            rw same at (check_change-IsKept f here)
        | inr e ↦
            let later : contains file fs ≡ true = ground arith in
            check_staged_decisions-IsKept file fs (rest_of f fs h) later decision old
      ]
    where
      rest_of :
          (f : String) (fs : List String)
          → check_staged_decisions node root (f ∷ fs) ≡ ok tt
          → check_staged_decisions node root fs ≡ ok tt
      rest_of f fs h = elim (Bool-cases (is_decision f && is_zero (in_head node root f).status)) [
        | inl e ↦
            let (u, here, rest) =
              >>=-eq-ok (check_change node root f (in_head node root f).stdout) _ (rw e at h) in
            rest
        | inr e ↦ rw e at h
      ]

module _ (node : Node) (parse_json : String → Result Value) (env : String → Option String)
    (sha256 : String → String) (repo_root root : String) where
  -- A decision of HEAD whose own name is among the staged names of an accepted commit is still there. If
  -- it was superseded, its text is that of HEAD. If not, it is superseded now, and the two texts are
  -- the same once the values of their status lines are masked. Of a decision that git lists under
  -- another name only, since it was renamed, nothing is said.
  pub pre_commit-IsKept :
      {staged : List String} (file : String)
      → staged_names node parse_json env root ≡ ok staged
      → contains file staged ≡ true
      → is_decision file ≡ true
      → is_zero (in_head node root file).status ≡ true
      → pre_commit node parse_json env sha256 repo_root root ≡ ok tt
      → IsKept node root file
  pre_commit-IsKept {staged} file listed member decision old h =
      let (
        staged', allowed, branch, listed', read, named, work, of_branch, wiki, decisions, content,
      ) =
        pre_commit-Accepted node parse_json env sha256 repo_root root h in
      let same : staged' ≡ staged = ground arith in
      check_staged_decisions-IsKept node root file staged' decisions (rw same member) decision old

  -- Of the files of an accepted commit for one context only the target is changed, and that, only in
  -- the section's body.
  abbrev pub IsContextCommit : String → String → List String → Type 0
  IsContextCommit action target staged =
      (is_parent node parse_json env ≡ true)
      × All (λ file. (file == target) ≡ true) staged
      × (current : String) × (node.read_text (node.path_join root target) ≡ ok current)
      × (before : String) × (later : String) × IsMasked (heading_of action)
          (in_head node root target).stdout before later
      × IsMasked (heading_of action) current before later
