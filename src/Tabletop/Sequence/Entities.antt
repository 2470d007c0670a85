-- ===== src/Tabletop/Sequence/Entities.antt =====
-- What an accepted scenario says of the entities whose states its messages report.
use kakesu.Prelude.{
  true, false, ◌≡◌, refl, ◌≢◌, Option, none, some, List, [], ◌∷◌, ◌++◌, String, arith, ap, sym, ◌∙◌,
  eq_iff, ◌⧺◌, starts_with, starts_with_self, All,
}
use kakesu.Js.{ℤ, Value, str, prop, strict_eq, to_text}
use kakesu.Js.Laws.{strict_eq_sound}
use kakesu.Tabletop.Sequence.{
  payload, table_of, transition, entity_key, listed, allowed_transitions, is_illegal, new_trace,
  state_text, Trace, state_of,
}
use kakesu.Tabletop.Sequence.Messages.{
  is_message, moves_entity, check_entity, breaks_off, validate_sequence,
}
use kakesu.Tabletop.Sequence.History.{entity_of, last_state, or_state, state-after}
use kakesu.Tabletop.Sequence.Identity.{accepted-Quiet}

abbrev pub IsAllowed : Option (List String) → String → Type 0
IsAllowed none t = Unit
IsAllowed (some ts) t = listed t ts ≡ true

abbrev pub Continues : Option Value → Value → Type 0
Continues none from = Unit
Continues (some v) from = strict_eq from v ≡ true

quiet-entity :
    (t : Trace) (s : Value)
    → check_entity t s ≡ []
    → moves_entity (payload s) ≡ true
    → (is_illegal (table_of (prop "kind" (entity_of s))) (transition (entity_of s)) ≡ false)
      × (breaks_off
            (state_of (entity_key (entity_of s)) t.entity_states)
            (prop "from_state" (entity_of s))
          ≡ false)
unfolding check_entity
quiet-entity t s h m = ground arith

IsAllowed-of_legal :
    (o : Option (List String)) (t : String) → is_illegal o t ≡ false → IsAllowed o t
IsAllowed-of_legal none t h = tt
IsAllowed-of_legal (some ts) t h = ground arith

Continues-of_unbroken : (o : Option Value) (v : Value) → breaks_off o v ≡ false → Continues o v
Continues-of_unbroken none v h = tt
Continues-of_unbroken (some w) v h = ground arith

or_state-none : (o : Option Value) → or_state o none ≡ o
or_state-none none = refl
or_state-none (some v) = refl

listed-starts_with :
    (t p : String) (ts : List String)
    → listed t ts ≡ true
    → All (λ y. starts_with y p ≡ false) ts
    → starts_with t p ≡ false
unfolding listed
listed-starts_with t p [] h all = cc
listed-starts_with t p (y ∷ ys) h (here, all) =
    ground (arith, eq_iff y t, listed-starts_with t p ys)

-- No transition of a task starts from "completed".
no_way_on : (x : String) → IsAllowed (allowed_transitions "task") ("completed->" ⧺ x) → ⊥
unfolding allowed_transitions starts_with
no_way_on x h =
    let start = starts_with_self "completed->" x in
    let other =
      listed-starts_with ("completed->" ⧺ x) "completed->" _ h
        (refl, (refl, (refl, (refl, (refl, (refl, (refl, (refl, (refl, tt))))))))) in
    cc

module _ (date_parse : Value → Option ℤ) where
  -- In an accepted scenario each message that moves an entity makes a transition that the table of
  -- the entity's kind lists, if there is such a table, and starts from the state in which the last
  -- such message left the entity, if there is one.
  pub accepted-entity :
      (steps before : List Value) (s : Value) (rest : List Value)
      → validate_sequence date_parse steps ≡ []
      → steps ≡ before ++ s ∷ rest
      → is_message s ≡ true
      → moves_entity (payload s) ≡ true
      → IsAllowed (table_of (prop "kind" (entity_of s))) (transition (entity_of s))
        × Continues (last_state (entity_key (entity_of s)) before) (prop "from_state" (entity_of s))
  unfolding state_of
  accepted-entity steps before s rest h split m moves =
      let q = accepted-Quiet date_parse steps before s rest h split m in
      let (legal, unbroken) = quiet-entity _ s q.entity moves in
      let k = entity_key (entity_of s) in
      let same = state-after date_parse k new_trace before ∙ or_state-none (last_state k before) in
      (
        IsAllowed-of_legal _ _ legal,
        Continues-of_unbroken (last_state k before) (prop "from_state" (entity_of s))
            (ap (λ o. breaks_off o (prop "from_state" (entity_of s))) (sym same) ∙ unbroken),
      )

  -- In an accepted scenario nothing moves a task on that an earlier message has left completed.
  pub completed_is_final :
      (steps before : List Value) (s : Value) (rest : List Value)
      → validate_sequence date_parse steps ≡ []
      → steps ≡ before ++ s ∷ rest
      → is_message s ≡ true
      → moves_entity (payload s) ≡ true
      → last_state (entity_key (entity_of s)) before ≡ some (str "completed")
      → prop "kind" (entity_of s) ≢ str "task"
  unfolding to_text
  completed_is_final steps before s rest h split m moves last task =
      let (allowed, continues) = accepted-entity steps before s rest h split m moves in
      let from : prop "from_state" (entity_of s) ≡ str "completed" =
        strict_eq_sound _ _ (rw last at continues) in
      no_way_on (state_text (prop "to_state" (entity_of s))) (rw (task, from) at allowed)
