-- ===== src/Tabletop/Sequence.antt =====
-- `validateSequenceInvariants` of scripts/validate-tabletop-scenarios.mjs. Each message that the
-- program pushes on `errors` is a constructor of `Problem`, with the step's id. `Date.parse` is a
-- parameter: `none` stands for NaN.
pub mod Messages
pub mod History
pub mod Identity
pub mod Entities
mod Tests
use kakesu.Prelude.{
  ℕ, String, Bool, true, false, not, ◌&&◌, ◌||◌, Option, none, some, List, [], ◌∷◌, ◌++◌, ◌==◌, ltb,
  any, if◌then◌else◌, ◌⧺◌,
}
use kakesu.Js.{
  ℤ, pos, negsuc, int_lt, int_suc, Value, undefined, null, bool, num, str, arr, obj, end, field,
  prop, truthy, or_else, or_undefined, strict_eq, same_json, to_text,
}
use mathlib.Core.List.{flat_map}

pub data Problem : Type 0 where
  no_request task_differs completes_early not_by_one base_differs no_activation : Value → Problem
  no_correlation_fields duplicate_message bad_causation reused_key : Value → Problem
  other_fingerprint not_first_delivery leaves_chain other_correlation : Value → Problem
  out_of_order : Value → Problem
  illegal_transition : Value → String → Problem
  discontinuity : Value → String → Problem

abbrev pub step_id : Value → Value
step_id step = prop "step_id" step

abbrev pub payload : Value → Value
payload step = prop "payload" step

-- `if (bad) errors.push(problem)`
abbrev pub report_if : Bool → Problem → List Problem
report_if true p = p ∷ []
report_if false p = []

-- `byType.get(type) ?? []`
unfoldable pub of_type : String → List Value → List Value
of_type t [] = []
of_type t (s ∷ ss) =
    let rest = of_type t ss in if strict_eq (prop "message_type" s) (str t) then s ∷ rest else rest

-- `field(payload, name)`
abbrev pub ref_field : Value → String → Value
ref_field p name = or_else (prop name p) (prop name (prop "refs" p))

-- `memoryRequests.get(id)`: the last request of an id is the one that the map holds.
unfoldable pub request_for : Value → List Value → Option Value
request_for id [] = none
request_for id (s ∷ ss) = elim (request_for id ss) [
  | some p ↦ some p
  | none ↦ if strict_eq (ref_field (payload s) "request_id") id then some (payload s) else none
]

unfoldable pub check_memory_context : List Value → Value → List Problem
unfolding request_for of_type
check_memory_context steps s =
    let request =
      or_undefined
        (request_for (ref_field (payload s) "request_id") (of_type "MemoryContextRequest" steps)) in
    if truthy request
    then report_if (not (strict_eq (ref_field request "task_id") (ref_field (payload s) "task_id")))
        (task_differs (step_id s))
    else no_request (step_id s) ∷ []

-- `v + 1`, where `none` stands for NaN.
abbrev pub plus_one : Value → Option Value
plus_one undefined = none
plus_one null = some (num (pos 1))
plus_one (bool true) = some (num (pos 2))
plus_one (bool false) = some (num (pos 1))
plus_one (num n) = some (num (int_suc n))
plus_one (str s) = some (str (s ⧺ "1"))
plus_one (arr vs) = some (str (to_text (arr vs) ⧺ "1"))
plus_one (obj fs) = some (str (to_text (obj fs) ⧺ "1"))

abbrev is_one_more : Value → Option Value → Bool
is_one_more v none = false
is_one_more v (some w) = strict_eq v w

unfoldable pub check_policy_revision : Value → List Problem
check_policy_revision s =
    let p = payload s in
    report_if
      (not
        (is_one_more (prop "new_policy_version" p) (plus_one (prop "previous_policy_version" p))))
      (not_by_one (step_id s))
    ++ report_if (not (strict_eq (prop "base_policy_version" p) (prop "previous_policy_version" p)))
        (base_differs (step_id s))
    ++ report_if
        (strict_eq (prop "status" p) (str "active")
          && (not (truthy (prop "activation_ack_ref" p)) || not (truthy (prop "activated_at" p))))
        (no_activation (step_id s))

unfoldable pub check_completion : Value → List Problem
check_completion s =
    let p = payload s in
    report_if
      (not (truthy (prop "id" (prop "entity" p)))
        && (not (truthy (prop "review_job_id" p))
            || not (truthy (prop "task_id" p))
            || not (truthy (prop "input_digest" p))))
      (no_correlation_fields (step_id s))

-- `allowedTransitions.get(kind)`
unfoldable pub allowed_transitions : String → Option (List String)
allowed_transitions kind =
    if kind == "task"
    then some (
        "null->ready" ∷ "null->running" ∷ "ready->running" ∷ "running->waiting" ∷ "waiting->running"
        ∷ "running->suspended" ∷ "suspended->running" ∷ "running->reviewing_completion"
        ∷ "reviewing_completion->completed" ∷ [])
    else if kind == "policy-grant"
    then some ("null->pending_activation" ∷ "pending_activation->active" ∷ "active->revoked" ∷ [])
    else if kind == "policy-revision"
    then some
        ("null->pending_activation" ∷ "pending_activation->active" ∷ "active->superseded" ∷ [])
    else if kind == "async-operation"
    then some
        ("null->running" ∷ "running->completed" ∷ "running->failed" ∷ "running->cancelled" ∷ [])
    else if kind == "mailbox-event"
    then some ("null->deliverable" ∷ "null->delivered" ∷ "delivered->consumed" ∷ [])
    else if kind == "memory-request"
    then some ("null->requested" ∷ "requested->completed" ∷ [])
    else if kind == "completion-review"
    then some ("null->reviewing" ∷ "reviewing->accepted" ∷ "reviewing->rejected" ∷ [])
    else if kind == "episode-job"
    then some ("null->running" ∷ "running->completed" ∷ [])
    else if kind == "task-episode"
    then some ("null->committed" ∷ [])
    else if kind == "tool-call"
    then some ("null->running" ∷ "running->completed" ∷ "running->failed" ∷ [])
    else if kind == "policy-activation"
    then some ("null->acked" ∷ [])
    else if kind == "security-incident"
    then some ("null->open" ∷ "open->remediated" ∷ "remediated->closed" ∷ [])
    else none

-- A key of the map is compared as a value, so only a text finds an entry.
abbrev pub table_of : Value → Option (List String)
table_of (str kind) = allowed_transitions kind
table_of _ = none

abbrev pub state_text : Value → String
state_text null = "null"
state_text v = to_text v

abbrev pub transition : Value → String
transition e = state_text (prop "from_state" e) ⧺ "->" ⧺ state_text (prop "to_state" e)

abbrev pub entity_key : Value → String
entity_key e = to_text (prop "kind" e) ⧺ ":" ⧺ to_text (prop "id" e)

unfoldable pub listed : String → List String → Bool
listed x [] = false
listed x (y ∷ ys) = y == x || listed x ys

abbrev pub is_illegal : Option (List String) → String → Bool
is_illegal none t = false
is_illegal (some ts) t = not (listed t ts)

-- What a time is compared with: -Infinity at first.
pub data Instant : Type 0 where
  never : Instant
  parsed : Option ℤ → Instant

abbrev pub is_before : Option ℤ → Instant → Bool
is_before none i = false
is_before (some t) never = false
is_before (some t) (parsed none) = false
is_before (some t) (parsed (some u)) = int_lt t u

-- What `seenIdempotencyKeys` holds of the first operation of a key.
pub record Operation : Type 0 where
  pub fingerprint : Value
  pub message_id : Value

pub record Trace : Type 0 where
  pub seen_messages : List Value
  pub first_uses : List (Value × Operation)
  pub entity_states : List (String × Value)
  pub correlation : Value
  pub previous_time : Instant

abbrev pub new_trace : Trace
new_trace = record {
  seen_messages = [];
  first_uses = [];
  entity_states = [];
  correlation = null;
  previous_time = never;
}

unfoldable pub seen : Value → List Value → Bool
seen v [] = false
seen v (w ∷ ws) = strict_eq w v || seen v ws

unfoldable pub first_use : Value → List (Value × Operation) → Option Operation
first_use k [] = none
first_use k ((j, o) ∷ us) = if strict_eq j k then some o else first_use k us

unfoldable pub state_of : String → List (String × Value) → Option Value
state_of k [] = none
state_of k ((j, v) ∷ vs) = if j == k then some v else state_of k vs

unfoldable pub fingerprint : Value → Value
fingerprint p = obj (
    field "task_id" (prop "task_id" p) (
      field "workspace_id" (prop "workspace_id" p)
        (field "entity" (prop "entity" p) (field "refs" (prop "refs" p) end))))

-- `payload.delivery_attempt >= 2`, where texts and arrays, which JavaScript would convert to
-- numbers, count as too small.
abbrev at_least_two : Value → Bool
at_least_two (num (pos n)) = ltb 1 n
at_least_two _ = false

unfoldable pub is_redelivery : Value → Bool
is_redelivery p =
    at_least_two (prop "delivery_attempt" p) && truthy (prop "redelivery_of_message_id" p)

-- `scenario.steps.find(…)?.payload`, the first step with the message id.
unfoldable pub find_cause : Value → List Value → Value
find_cause id [] = undefined
find_cause id (s ∷ ss) =
    if strict_eq (prop "message_id" (payload s)) id then payload s else find_cause id ss
