-- ===== src/Tabletop/Sequence/Tests.antt =====
-- A recorded scenario with a redelivered message, and the theorems at its messages.
use kakesu.Prelude.{
  true, false, ◌≡◌, refl, ◌≢◌, Option, none, some, List, [], ◌∷◌, String, ◌==◌, if◌then◌else◌,
}
use mathlib.Core.List.{flat_map}
use kakesu.Js.{
  ℤ, pos, Value, null, num, str, arr, nil, cons, obj, Fields, end, field, prop, truthy, strict_eq,
  same_json, to_text, own,
}
use kakesu.Tabletop.Sequence.{
  payload, table_of, transition, entity_key, of_type, seen, first_use, state_of, fingerprint,
  is_redelivery, find_cause, allowed_transitions, listed, out_of_order, duplicate_message, Problem,
}
use kakesu.Tabletop.Sequence.Messages.{
  is_message, moves_entity, check_causation, check_reuse, check_correlation, check_entity,
  check_time, check_message, record_message, check_messages, validate_sequence,
}
use kakesu.Tabletop.Sequence.History.{message_id, entity_of, sent, last_state, first_with}
use kakesu.Tabletop.Sequence.Identity.{
  accepted-causation, accepted-reuse, accepted-correlation, first_correlation,
}
use kakesu.Tabletop.Sequence.Entities.{IsAllowed, Continues, accepted-entity, completed_is_final}

-- Stands for `Date.parse` on the texts of the scenario.
clock : Value → Option ℤ
clock (str t) =
    if t == "2026-07-12T01:00:00Z"
    then some (pos 0)
    else if t == "2026-07-12T01:00:05Z"
    then some (pos 5)
    else none
clock _ = none

abbrev message : String → String → Fields → Value
message id time more = obj (
    field "step_id" (str id) (
      field "payload"
        (obj (
          field "message_id" (str id)
            (field "correlation_id" (str "c1") (field "occurred_at" (str time) more))))
        end))

abbrev moving : Value → Value → String → Fields → Fields
moving kind from to more =
    field "entity"
      (obj (
        field "kind" kind
          (field "id" (str "t1") (field "from_state" from (field "to_state" (str to) end)))))
      more

abbrev started : Value
started =
    message "m1" "2026-07-12T01:00:00Z"
      (moving (str "task") null "running" (field "idempotency_key" (str "k1") end))

abbrev reviewed : Value
reviewed = message "m2" "2026-07-12T01:00:00Z" (
    moving (str "task") (str "running") "reviewing_completion"
      (field "idempotency_key" (str "k2") (field "causation_message_id" (str "m1") end)))

abbrev completed : Value
completed = message "m3" "2026-07-12T01:00:05Z" (
    moving (str "task") (str "reviewing_completion") "completed"
      (field "idempotency_key" (str "k3") end))

abbrev redelivered : Value
redelivered = message "m4" "2026-07-12T01:00:05Z" (
    moving (str "task") null "running" (
      field "idempotency_key" (str "k1")
        (field "delivery_attempt" (num (pos 2)) (field "redelivery_of_message_id" (str "m1") end))))

-- Its kind is an array, whose text is that of the task's kind.
abbrev stray : Value
stray = message "m5" "2026-07-12T01:00:05Z" (
    moving (arr (cons (str "task") nil)) (str "completed") "reopened"
      (field "idempotency_key" (str "k5") end))

abbrev scenario : List Value
scenario = started ∷ reviewed ∷ completed ∷ redelivered ∷ stray ∷ []

run : Unit {0}
unfolding validate_sequence check_messages check_message check_causation check_reuse
    check_correlation check_entity check_time record_message is_message moves_entity of_type seen
    first_use state_of fingerprint is_redelivery find_cause allowed_transitions listed clock prop
    own truthy strict_eq same_json to_text sent last_state first_with first_correlation flat_map
run = tt

scenario_accepted : validate_sequence clock scenario ≡ []
unfolding run
scenario_accepted = refl

repeated_id :
    validate_sequence clock (started ∷ started ∷ [])
    ≡ duplicate_message (str "m1")
      ∷ Problem.reused_key (str "m1")
      ∷ Problem.not_first_delivery (str "m1")
      ∷ Problem.discontinuity (str "m1") "task:t1"
      ∷ []
unfolding run
repeated_id = refl

late_first :
    validate_sequence clock (completed ∷ reviewed ∷ [])
    ≡ Problem.bad_causation (str "m2")
      ∷ Problem.discontinuity (str "m2") "task:t1"
      ∷ out_of_order (str "m2")
      ∷ []
unfolding run
late_first = refl

accepted-causation_example :
    (sent (str "m2") (started ∷ []) ≡ false)
    × (truthy (str "m1") ≡ true → sent (str "m1") (started ∷ []) ≡ true)
unfolding run
accepted-causation_example =
    accepted-causation clock scenario (started ∷ []) reviewed (completed ∷ redelivered ∷ stray ∷ [])
      refl refl refl

accepted-reuse_example :
    (is_redelivery (payload redelivered) ≡ true)
    × (same_json (fingerprint (payload started)) (fingerprint (payload redelivered)) ≡ true)
    × (strict_eq (prop "redelivery_of_message_id" (payload redelivered)) (message_id started)
        ≡ true)
unfolding run
accepted-reuse_example =
    accepted-reuse clock scenario (started ∷ reviewed ∷ completed ∷ []) redelivered started
      (stray ∷ []) refl refl refl refl

accepted-correlation_example :
    strict_eq (prop "correlation_id" (payload reviewed)) (first_correlation (started ∷ [])) ≡ true
unfolding run
accepted-correlation_example =
    accepted-correlation clock scenario (started ∷ []) reviewed
      (completed ∷ redelivered ∷ stray ∷ []) refl refl refl refl

accepted-entity_example :
    IsAllowed (table_of (prop "kind" (entity_of reviewed))) (transition (entity_of reviewed))
    × Continues
        (last_state (entity_key (entity_of reviewed)) (started ∷ []))
        (prop "from_state" (entity_of reviewed))
unfolding run
accepted-entity_example =
    accepted-entity clock scenario (started ∷ []) reviewed (completed ∷ redelivered ∷ stray ∷ [])
      refl refl refl refl

completed_is_final_example : prop "kind" (entity_of stray) ≢ str "task"
unfolding run
completed_is_final_example =
    completed_is_final clock scenario (started ∷ reviewed ∷ completed ∷ redelivered ∷ []) stray []
      refl refl refl refl refl
