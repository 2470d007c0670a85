-- ===== src/Check/Contract.antt =====
-- `isRepositoryFilePath` and `validateSafetyContractPlan` of scripts/task/check-task.mjs: which
-- paths a plan for a safety contract may declare.
pub mod Laws
use kakesu.Prelude.{
  ℕ, String, Bool, true, false, ◌&&◌, ◌||◌, not, List, [], ◌∷◌, ◌++◌, concat, ◌==◌, any, nat_eq,
  if◌then◌else◌, starts_with, ends_with_char, all_chars, ◌⧺◌,
}
use kakesu.Js.{Value, str, num, pos, undefined, arr, items, prop, strict_eq, to_text}
use kakesu.Work.Texts.{split}
use kakesu.Work.Node.{Node}
use kakesu.Check.Values.{is, has_field, about}

abbrev pub is_safety_contract_path : String → Bool
is_safety_contract_path path =
    path == "AGENTS.md"
    || starts_with path ".agents/skills/"
    || starts_with path "docs/development/"
    || path == "docs/glossary.yml"
    || starts_with path "templates/task/"

abbrev pub is_generated_path : String → Bool
is_generated_path path = path == "docs/99-glossary-index.md"

-- /[*?[\]{}]/ and the backslash
abbrev is_special : ℕ → Bool
is_special c =
    nat_eq c b'*'
    || nat_eq c b'?'
    || nat_eq c b'['
    || nat_eq c b']'
    || nat_eq c b'{'
    || nat_eq c b'}'
    || nat_eq c 92

-- The result of `validateSafetyContractPlan`.
pub record Contract : Type 0 where
  pub errors : List String
  pub version : Value
  pub planned_paths : List Value
  pub generated_paths : List Value

abbrev without_paths : List String → Value → Contract
without_paths es v = record { errors = es; version = v; planned_paths = []; generated_paths = [] }

abbrev pub elements_of : Value → List Value
elements_of (arr vs) = items vs
elements_of _ = []

abbrev pub is_array : Value → Bool
is_array (arr _) = true
is_array _ = false

abbrev pub error_if : Bool → String → List String
error_if true e = e ∷ []
error_if false e = []

abbrev array_error : String → Value → String → List String
array_error id plan field =
    error_if (not (is_array (prop field plan)))
      (about id ("safety_contract v2 requires " ⧺ field ⧺ " as an array"))

-- The first value that stands in the list before; `undefined` where there is none.
unfoldable pub first_repeat : List Value → List Value → Value
first_repeat seen [] = undefined
first_repeat seen (v ∷ vs) =
    let later = first_repeat (v ∷ seen) vs in if any (λ w. strict_eq w v) seen then v else later

abbrev pub is_defined : Value → Bool
is_defined undefined = false
is_defined _ = true

abbrev has_v2_fields : Value → Bool
has_v2_fields plan =
    has_field "safety_contract_planned_paths" plan
    || has_field "safety_contract_generated_paths" plan

module _ (node : Node) where
  unfoldable pub is_repository_file_path : Value → Bool
  is_repository_file_path (str s) =
      not (s == "")
      && not (node.is_absolute s)
      && node.normalize s == s
      && not (ends_with_char b'/' s)
      && not (node.extname s == "")
      && all_chars (λ c. not (is_special c)) s
      && not (any (λ part. part == "..") (split b'/' s))
  is_repository_file_path _ = false

  abbrev allowed_text : (String → Bool) → Value → Bool
  allowed_text allowed (str s) = allowed s
  allowed_text allowed _ = false

  unfoldable pub path_error : String → String → (String → Bool) → Value → List String
  path_error id field allowed v =
      if not (is_repository_file_path v)
      then about id (field ⧺ " contains an invalid repository file path: " ⧺ to_text v) ∷ []
      else error_if (not (allowed_text allowed v))
          (about id (field ⧺ " contains an unapproved path: " ⧺ to_text v))

  unfoldable pub path_errors : String → String → (String → Bool) → List Value → List String
  path_errors id field allowed [] = []
  path_errors id field allowed (v ∷ vs) =
      path_error id field allowed v ++ path_errors id field allowed vs

  abbrev pub version_two_errors : Value → String → List Value → List Value → List (List String)
  version_two_errors plan id planned generated =
      let repeated = first_repeat [] (planned ++ generated) in
      array_error id plan "safety_contract_planned_paths"
      ∷ array_error id plan "safety_contract_generated_paths"
      ∷ path_errors id "safety_contract_planned_paths" is_safety_contract_path planned
      ∷ path_errors id "safety_contract_generated_paths" is_generated_path generated
      ∷ error_if (is_defined repeated) (
          about id
            ("safety_contract v2 path declarations contain a duplicate: " ⧺ to_text repeated))
      ∷ []

  abbrev pub version_two : Value → String → Contract
  version_two plan id =
      let planned = elements_of (prop "safety_contract_planned_paths" plan) in
      let generated = elements_of (prop "safety_contract_generated_paths" plan) in
      record {
        errors = concat (version_two_errors plan id planned generated);
        version = num (pos 2);
        planned_paths = planned;
        generated_paths = generated;
      }

  unfoldable pub validate_safety_contract_plan : Value → Value → String → Contract
  validate_safety_contract_plan plan change_class id =
      let version = prop "safety_contract_version" plan in
      if not (is "safety_contract" change_class)
      then without_paths
          (error_if (has_field "safety_contract_version" plan || has_v2_fields plan)
            (about id "safety_contract v2 fields require change_class safety_contract"))
          undefined
      else if not (has_field "safety_contract_version" plan)
      then without_paths
          (error_if (has_v2_fields plan)
            (about id "safety_contract v2 path fields require safety_contract_version: 2"))
          undefined
      else if not (strict_eq version (num (pos 2)))
      then without_paths (about id ("unsupported safety_contract_version " ⧺ to_text version) ∷ [])
          version
      else version_two plan id
