-- ===== src/Check/Safety/Laws.antt =====
-- What an accepted safety contract has changed, and what it has passed.
use kakesu.Prelude.{
  String, Bool, true, false, not, ◌≢◌, eq_iff, ◌||◌, ◌≡◌, refl, sym, ◌∙◌, ◌⊎◌, inl, inr, List, [],
  ◌∷◌, ◌++◌, arith, Bool-cases, All, All-map, any, or_left, or_right, not-eq-false, any-eq-false,
  ◌⧺◌, some, none, ◌==◌, Option,
}
use kakesu.Js.{Value, str, num, pos, strict_eq}
use kakesu.Js.Laws.{strict_eq_sound}
use kakesu.Result.{ok, throw_if-eq-ok, throw_if-ok, >>=-eq-ok}
use kakesu.Work.Texts.{split, nonempty}
use kakesu.Work.Node.{Node, git}
use kakesu.Check.Contract.{
  Contract, is_safety_contract_path, is_generated_path, validate_safety_contract_plan,
}
use kakesu.Check.Contract.Laws.{IsDeclared, IsContract, validate_safety_contract_plan-IsContract}
use kakesu.Check.Merges.{repository_for, default_branch, has_commit}
use kakesu.Check.Changes.{
  Change, changes_of, is_declared, is_accepted_plan, has_changes, check_changes, first_parent_of,
  safety_candidate_merged,
}

-- A file of the safety contract, or the generated index of the glossary.
abbrev pub IsContractFile : Change → Type 0
IsContractFile change = (is_safety_contract_path change.1 || is_generated_path change.1) ≡ true

nothing_before :
    (es : List String) (b : Bool)
    → elim es [ [] ↦ b | _ ∷ _ ↦ false ] ≡ true
    → (es ≡ []) × (b ≡ true)
nothing_before [] b h = (refl, h)
nothing_before (e ∷ es) b h = cc

module _ (node : Node) where
  declared-allowed :
      (allowed : String → Bool) (vs : List Value) (path : String)
      → All (IsDeclared node allowed) vs
      → is_declared vs path ≡ true
      → allowed path ≡ true
  declared-allowed allowed [] path h k = cc
  declared-allowed allowed (v ∷ vs) path (d, h) k = elim (Bool-cases (strict_eq v (str path))) [
    | inl same ↦
        let (s, e, _, fine) = d in
        let here : str s ≡ str path = sym e ∙ strict_eq_sound v (str path) same in
        let named : s ≡ path = cc (here) in rw (sym named) fine
    | inr other ↦ declared-allowed allowed vs path h (rw other at k)
  ]

  declared-append :
      (vs ws : List Value) (path : String)
      → is_declared (vs ++ ws) path ≡ true
      → (is_declared vs path ≡ true) ⊎ (is_declared ws path ≡ true)
  declared-append [] ws path h = inr h
  declared-append (v ∷ vs) ws path h = elim (Bool-cases (strict_eq v (str path))) [
    | inl same ↦ inl (rw same refl)
    | inr other ↦ rw other (declared-append vs ws path (rw other at h))
  ]

  contract_file :
      (c : Contract) (change : Change)
      → IsContract node c
      → is_declared (c.planned_paths ++ c.generated_paths) change.1 ≡ true
      → IsContractFile change
  contract_file c change (planned, generated, _) h =
      elim (declared-append c.planned_paths c.generated_paths change.1 h) [
        | inl p ↦
            let fine =
              declared-allowed is_safety_contract_path c.planned_paths change.1 planned p in
            rw fine refl
        | inr g ↦
            let fine = declared-allowed is_generated_path c.generated_paths change.1 generated g in
            or_right (is_safety_contract_path change.1) _ fine
      ]

  check_changes-IsContractFile :
      (plan change_class : Value) (id : String) (c : Contract) (changes : List Change)
      → c ≡ validate_safety_contract_plan node plan change_class id
      → check_changes c changes ≡ ok tt
      → All IsContractFile changes
  unfolding check_changes
  check_changes-IsContractFile plan change_class id c changes e h =
      elim (Bool-cases (is_accepted_plan c)) [
        | inl accepted ↦
            let (clean, two) = nothing_before c.errors _ accepted in
            let declares : IsContract node c = rw e (
              validate_safety_contract_plan-IsContract node plan change_class id (rw (sym e) clean)
                (rw (sym e) (strict_eq_sound c.version (num (pos 2)) two))) in
            let undeclared = λ (change : Change).
              not (is_declared (c.planned_paths ++ c.generated_paths) change.1) in
            let (fine, _) = throw_if-eq-ok (any undeclared changes) _ _ (rw accepted at h) in
            All-map (λ change f. contract_file c change declares (ground arith)) changes
              (any-eq-false undeclared changes fine)
        | inr other ↦
            let unapproved = λ (change : Change). not (is_safety_contract_path change.1) in
            let fine = throw_if-ok (any unapproved changes) _ (rw other at h) in
            All-map (λ change f. or_left _ _ (not-eq-false _ f)) changes
              (any-eq-false unapproved changes fine)
      ]

module _ (node : Node) (root : String) where
  -- The candidate is one commit on its merge base with main, and the files that differ from there are of
  -- the contract.
  abbrev pub IsConfined : String → Type 0
  IsConfined candidate =
      (repository : String) × (branch : Value) × (first : String) × (base : String)
      × (diff : String) × (changes : List Change) × (repository_for node root ≡ ok repository)
      × (default_branch node root ≡ ok branch)
      × (first_parent_of node root repository branch candidate ≡ ok first)
      × (git node repository ("merge-base" ∷ first ∷ candidate ∷ []) ≡ ok base)
      × (git node repository ("rev-list" ∷ "--count" ∷ (base ⧺ ".." ⧺ candidate) ∷ []) ≡ ok "1")
      × (git node repository (
            "diff" ∷ "--name-status" ∷ "--find-renames" ∷ "--find-copies-harder" ∷ base ∷ candidate
            ∷ [])
          ≡ ok diff)
      × (changes_of (nonempty (split 10 diff)) ≡ some changes)
      × (changes ≢ [])
      × All IsContractFile changes

  has_changes-some :
      (o : Option (List Change)) {cs : List Change}
      → has_changes o ≡ ok cs
      → (o ≡ some cs) × (cs ≢ [])
  has_changes-some (some (c ∷ cs)) h = (cc, λ e. cc)
  has_changes-some (some []) h = cc
  has_changes-some none h = cc

  pub safety_candidate_merged-IsConfined :
      (plan change_class : Value) (id : String) (c : Contract) (candidate : String)
      → c ≡ validate_safety_contract_plan node plan change_class id
      → safety_candidate_merged node root c candidate ≡ ok tt
      → IsConfined candidate
  unfolding safety_candidate_merged
  safety_candidate_merged-IsConfined plan change_class id c candidate e h =
      let (repository, a, h1) = >>=-eq-ok (repository_for node root) _ h in
      let (branch, b, h2) = >>=-eq-ok (default_branch node root) _ h1 in
      let (_, _, h3) = >>=-eq-ok (has_commit node root repository candidate) _ h2 in
      let (first, d, h4) = >>=-eq-ok (first_parent_of node root repository branch candidate) _ h3 in
      let (base, f, h5) =
        >>=-eq-ok (git node repository ("merge-base" ∷ first ∷ candidate ∷ [])) _ h4 in
      let (count, counted, h6) =
        >>=-eq-ok (git node repository ("rev-list" ∷ "--count" ∷ (base ⧺ ".." ⧺ candidate) ∷ [])) _
          h5 in
      let (one, h7) = throw_if-eq-ok (not (count == "1")) _ _ h6 in
      let (diff, shown, h8) =
        >>=-eq-ok
          (git node repository (
            "diff" ∷ "--name-status" ∷ "--find-renames" ∷ "--find-copies-harder" ∷ base ∷ candidate
            ∷ []))
          _ h7 in
      let (changes, read, fits) =
        >>=-eq-ok (has_changes (changes_of (nonempty (split 10 diff)))) _ h8 in
      let (found, filled) = has_changes-some _ read in
      (
        repository,
        branch,
        first,
        base,
        diff,
        changes,
        a,
        b,
        d,
        f,
        rw ((eq_iff count "1").0 (not-eq-false _ one)) at counted,
        shown,
        found,
        filled,
        check_changes-IsContractFile node plan change_class id c changes e fits,
      )
