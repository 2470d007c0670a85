-- ===== src/Check/Contract/Laws.antt =====
-- What a plan for a safety contract declares once it is accepted.
use kakesu.Prelude.{
  String, Bool, true, false, ◌≡◌, refl, inl, inr, List, [], ◌∷◌, ◌++◌, All, All-map, All-append,
  any, arith, append-eq-nil, concat-AllNil, Bool-cases,
}
use kakesu.Js.{Value, num, str, pos, prop, strict_eq}
use kakesu.Work.Node.{Node}
use kakesu.Check.Values.{is, has_field}
use kakesu.Check.Contract.{
  is_safety_contract_path, is_generated_path, Contract, first_repeat, is_defined, error_if,
  elements_of, is_repository_file_path, path_error, path_errors, version_two, version_two_errors,
  validate_safety_contract_plan,
}

error_if-nil : (b : Bool) (e : String) → error_if b e ≡ [] → b ≡ false
error_if-nil b e h = ground arith

-- No text stands in the list again after it.
abbrev pub IsDistinct : List Value → Type 0
IsDistinct [] = Unit
IsDistinct (v ∷ vs) = All (λ w. strict_eq v w ≡ false) vs × IsDistinct vs

module _ (node : Node) where
  -- A path in the repository, of the files that are allowed.
  abbrev pub IsDeclared : (String → Bool) → Value → Type 0
  IsDeclared allowed v =
      (s : String) × (v ≡ str s) × (is_repository_file_path node v ≡ true) × (allowed s ≡ true)

  path_error-IsDeclared :
      (id field : String) (allowed : String → Bool) (v : Value)
      → path_error node id field allowed v ≡ []
      → IsDeclared allowed v
  unfolding path_error is_repository_file_path
  path_error-IsDeclared id field allowed (str s) h =
      let facts : (is_repository_file_path node (str s) ≡ true) × (allowed s ≡ true) =
        ground arith in
      (s, refl, facts.0, facts.1)
  path_error-IsDeclared id field allowed v h = cc

  path_errors-IsDeclared :
      (id field : String) (allowed : String → Bool) (vs : List Value)
      → path_errors node id field allowed vs ≡ []
      → All (IsDeclared allowed) vs
  unfolding path_errors
  path_errors-IsDeclared id field allowed [] h = tt
  path_errors-IsDeclared id field allowed (v ∷ vs) h =
      let (here, rest) =
        append-eq-nil (path_error node id field allowed v) (path_errors node id field allowed vs)
          h in
      (
        path_error-IsDeclared id field allowed v here,
        path_errors-IsDeclared id field allowed vs rest,
      )

first_repeat-IsDistinct :
    (seen vs : List Value)
    → All (λ v. is_defined v ≡ true) vs
    → is_defined (first_repeat seen vs) ≡ false
    → All (λ v. any (λ w. strict_eq w v) seen ≡ false) vs × IsDistinct vs
unfolding first_repeat
first_repeat-IsDistinct seen [] d h = (tt, tt)
first_repeat-IsDistinct seen (v ∷ vs) (p, d) h = elim (Bool-cases (any (λ w. strict_eq w v) seen)) [
  | inl repeated ↦ let wrong = rw repeated at h in cc
  | inr fresh ↦
      let (unseen, distinct) = first_repeat-IsDistinct (v ∷ seen) vs d (rw fresh at h) in
      (
        (fresh, All-map (λ w n. ground arith) vs unseen),
        (All-map (λ w n. ground arith) vs unseen, distinct),
      )
]

module _ (node : Node) where
  -- What an accepted plan of version 2 declares.
  abbrev pub IsContract : Contract → Type 0
  IsContract c =
      All (IsDeclared node is_safety_contract_path) c.planned_paths
      × All (IsDeclared node is_generated_path) c.generated_paths
      × IsDistinct (c.planned_paths ++ c.generated_paths)

  declared_defined :
      (allowed : String → Bool) (vs : List Value)
      → All (IsDeclared node allowed) vs
      → All (λ v. is_defined v ≡ true) vs
  declared_defined allowed vs h = All-map (λ v (s, same, _, _). rw same refl) vs h

  version_two-IsContract :
      (plan : Value) (id : String)
      → (version_two node plan id).errors ≡ []
      → IsContract (version_two node plan id)
  version_two-IsContract plan id h =
      let planned = elements_of (prop "safety_contract_planned_paths" plan) in
      let generated = elements_of (prop "safety_contract_generated_paths" plan) in
      let (_, (_, (first, (second, (single, _))))) =
        concat-AllNil (version_two_errors node plan id planned generated) h in
      let p =
        path_errors-IsDeclared node id "safety_contract_planned_paths" is_safety_contract_path
          planned first in
      let g =
        path_errors-IsDeclared node id "safety_contract_generated_paths" is_generated_path generated
          second in
      let defined =
        All-append (λ v. is_defined v ≡ true) planned generated
          (declared_defined is_safety_contract_path planned p)
          (declared_defined is_generated_path generated g) in
      (
        p,
        g,
        (first_repeat-IsDistinct [] (planned ++ generated) defined
            (error_if-nil (is_defined (first_repeat [] (planned ++ generated))) _ single)).1,
      )

  -- A plan of version 2 that is accepted declares files of the repository only: planned ones of the
  -- safety contract, generated ones of the glossary's index, and no file twice.
  pub validate_safety_contract_plan-IsContract :
      (plan change_class : Value) (id : String)
      → (validate_safety_contract_plan node plan change_class id).errors ≡ []
      → (validate_safety_contract_plan node plan change_class id).version ≡ num (pos 2)
      → IsContract (validate_safety_contract_plan node plan change_class id)
  unfolding validate_safety_contract_plan
  validate_safety_contract_plan-IsContract plan change_class id h v =
      elim (Bool-cases (is "safety_contract" change_class)) [
        | inr other ↦ let wrong = rw other at v in cc
        | inl mine ↦ elim (Bool-cases (has_field "safety_contract_version" plan)) [
          | inr missing ↦ let wrong = rw (mine, missing) at v in cc
          | inl there ↦
              elim (Bool-cases (strict_eq (prop "safety_contract_version" plan) (num (pos 2)))) [
                | inr other ↦
                    let found = rw (mine, there, other) at v in
                    let wrong = rw found at other in unfold strict_eq in cc
                | inl two ↦
                    rw (mine, there, two)
                      (version_two-IsContract plan id (rw (mine, there, two) at h))
              ]
        ]
      ]
