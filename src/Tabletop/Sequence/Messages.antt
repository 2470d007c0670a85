-- ===== src/Tabletop/Sequence/Messages.antt =====
-- The loop over the messages of a scenario in `validateSequenceInvariants`: what is checked of a
-- step against the trace of the steps before it, and what the step adds to the trace.
use kakesu.Prelude.{Bool, false, not, ◌&&◌, Option, none, some, List, [], ◌∷◌, ◌++◌, if◌then◌else◌}
use kakesu.Js.{ℤ, int_lt, Value, null, prop, truthy, strict_eq, same_json}
use mathlib.Core.List.{flat_map}
use kakesu.Tabletop.Sequence.{
  Problem, duplicate_message, bad_causation, reused_key, other_fingerprint, not_first_delivery,
  leaves_chain, other_correlation, out_of_order, illegal_transition, discontinuity, completes_early,
  step_id, payload, report_if, of_type, check_memory_context, check_policy_revision,
  check_completion, table_of, transition, entity_key, is_illegal, parsed, is_before, Operation,
  Trace, new_trace, seen, first_use, state_of, fingerprint, is_redelivery, find_cause,
}

-- `entity && !isRedelivery`
unfoldable pub moves_entity : Value → Bool
moves_entity p = truthy (prop "entity" p) && not (is_redelivery p)

unfoldable pub is_message : Value → Bool
is_message s = truthy (prop "message_id" (payload s))

unfoldable pub check_causation : Trace → Value → List Problem
check_causation t s =
    let p = payload s in
    report_if (seen (prop "message_id" p) t.seen_messages) (duplicate_message (step_id s))
    ++ report_if
        (truthy (prop "causation_message_id" p)
          && not (seen (prop "causation_message_id" p) t.seen_messages))
        (bad_causation (step_id s))

abbrev reuse_problems : Value → Option Operation → List Problem
reuse_problems s none = []
reuse_problems s (some o) =
    let p = payload s in
    report_if (not (is_redelivery p)) (reused_key (step_id s))
    ++ report_if (not (same_json o.fingerprint (fingerprint p))) (other_fingerprint (step_id s))
    ++ report_if (not (strict_eq (prop "redelivery_of_message_id" p) o.message_id))
        (not_first_delivery (step_id s))

unfoldable pub check_reuse : Trace → Value → List Problem
check_reuse t s = reuse_problems s (first_use (prop "idempotency_key" (payload s)) t.first_uses)

-- `cause && cause.correlation_id !== payload.correlation_id`
unfoldable pub check_correlation : List Value → Trace → Value → List Problem
check_correlation steps t s =
    let p = payload s in
    let cause = find_cause (prop "causation_message_id" p) steps in
    report_if
      (not (strict_eq t.correlation null)
        && not (strict_eq (prop "correlation_id" p) t.correlation))
      (leaves_chain (step_id s))
    ++ report_if
        (truthy (prop "causation_message_id" p)
          && truthy cause
          && not (strict_eq (prop "correlation_id" cause) (prop "correlation_id" p)))
        (other_correlation (step_id s))

-- `entityStates.has(key) && entity.from_state !== entityStates.get(key)`
abbrev pub breaks_off : Option Value → Value → Bool
breaks_off none from = false
breaks_off (some v) from = not (strict_eq from v)

unfoldable pub check_entity : Trace → Value → List Problem
check_entity t s =
    let e = prop "entity" (payload s) in
    if moves_entity (payload s)
    then report_if (is_illegal (table_of (prop "kind" e)) (transition e))
        (illegal_transition (step_id s) (transition e))
      ++ report_if (breaks_off (state_of (entity_key e) t.entity_states) (prop "from_state" e))
          (discontinuity (step_id s) (entity_key e))
    else []

abbrev pub or_new_use :
    Option Operation → Value → List (Value × Operation) → List (Value × Operation)
or_new_use (some _) p us = us
or_new_use none p us =
    (
      prop "idempotency_key" p,
      record { fingerprint = fingerprint p; message_id = prop "message_id" p },
    )
    ∷ us

module _ (date_parse : Value → Option ℤ) where
  unfoldable pub check_time : Trace → Value → List Problem
  check_time t s =
      report_if (is_before (date_parse (prop "occurred_at" (payload s))) t.previous_time)
        (out_of_order (step_id s))

  -- What the loop's body pushes on `errors` for a message.
  unfoldable pub check_message : List Value → Trace → Value → List Problem
  check_message steps t s =
      check_causation t s
      ++ check_reuse t s
      ++ check_correlation steps t s
      ++ check_entity t s
      ++ check_time t s

  -- What the loop's body adds to its sets and maps.
  unfoldable pub record_message : Trace → Value → Trace
  record_message t s =
      let p = payload s in
      let e = prop "entity" p in
      record {
        seen_messages = prop "message_id" p ∷ t.seen_messages;
        first_uses = or_new_use (first_use (prop "idempotency_key" p) t.first_uses) p t.first_uses;
        entity_states =
            if moves_entity p
            then (entity_key e, prop "to_state" e) ∷ t.entity_states
            else t.entity_states;
        correlation =
            if strict_eq t.correlation null then prop "correlation_id" p else t.correlation;
        previous_time = parsed (date_parse (prop "occurred_at" p));
      }

  unfoldable pub check_messages : List Value → Trace → List Value → List Problem
  check_messages steps t [] = []
  check_messages steps t (s ∷ ss) =
      (if is_message s then check_message steps t s else [])
      ++ check_messages steps (if is_message s then record_message t s else t) ss

  abbrev is_early : Option ℤ → Option ℤ → Bool
  is_early (some completed) (some started) = int_lt completed started
  is_early _ _ = false

  unfoldable pub check_transaction : Value → List Problem
  check_transaction s =
      report_if
        (is_early (date_parse (prop "completed_at" (payload s)))
          (date_parse (prop "started_at" (payload s))))
        (completes_early (step_id s))

  unfoldable pub validate_sequence : List Value → List Problem
  validate_sequence steps =
      flat_map (check_memory_context steps) (of_type "MemoryContext" steps)
      ++ flat_map check_transaction (of_type "OutboundTransaction" steps)
      ++ flat_map check_policy_revision (of_type "PolicyRevision" steps)
      ++ flat_map check_completion (of_type "CompletionReviewOutput" steps)
      ++ check_messages steps new_trace steps
