-- ===== src/Routing/Delegation/Tests.antt =====
-- Delegations and outcomes, and the theorems at them.
use kakesu.Prelude.{true, ◌≡◌, refl, ◌↔◌, [], ◌∷◌}
use kakesu.Js.{Value, str, arr, num, pos, nil, cons, strict_eq}
use kakesu.Js.Trim.{trim_start, trim_end, utf16_length, is_space}
use kakesu.Result.{ok, throw}
use kakesu.Routing.Delegation.{
  has_newline, validate_explorer_question, validate_delegation, Outcome, validate_child_outcome,
}
use kakesu.Routing.Delegation.Laws.{
  IsDelegation, validate_delegation_exact, IsLawful, validate_child_outcome_exact,
}
use kakesu.Scope.{directory_glob}
use kakesu.Prelude.{starts_with}

abbrev chain : Value
chain = arr (cons (str "root") (cons (str "explorer") nil))

delegated : validate_delegation chain (str "Where is main?" ∷ []) (num (pos 6)) ≡ ok true
unfolding validate_delegation validate_explorer_question trim_start trim_end utf16_length is_space
    has_newline strict_eq
delegated = refl

padded :
    validate_delegation chain (str " Where?" ∷ []) (num (pos 1))
    ≡ throw "ROUTING_BOUNDED_QUESTION_INVALID"
unfolding validate_delegation validate_explorer_question trim_start trim_end utf16_length is_space
    has_newline strict_eq
padded = refl

abbrev outcome : Outcome
outcome = record {
  child_exit = num (pos 0);
  before_head = "c1";
  after_head = "c1";
  staged_files = [];
  changed_files = "wiki/semantic/a.md" ∷ [];
  allowed_paths = "wiki/semantic/**" ∷ [];
}

accepted : validate_child_outcome outcome ≡ ok ("wiki/semantic/a.md" ∷ [])
unfolding validate_child_outcome strict_eq directory_glob starts_with
accepted = refl

validate_delegation_exact_example :
    validate_delegation chain (str "Where is main?" ∷ []) (num (pos 6)) ≡ ok true
    ↔ IsDelegation chain (str "Where is main?" ∷ []) (num (pos 6))
validate_delegation_exact_example =
    validate_delegation_exact chain (str "Where is main?" ∷ []) (num (pos 6))

validate_child_outcome_exact_example :
    validate_child_outcome outcome ≡ ok ("wiki/semantic/a.md" ∷ [])
    ↔ ("wiki/semantic/a.md" ∷ [] ≡ outcome.changed_files) × IsLawful outcome
validate_child_outcome_exact_example =
    validate_child_outcome_exact outcome ("wiki/semantic/a.md" ∷ [])
