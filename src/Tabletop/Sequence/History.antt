-- ===== src/Tabletop/Sequence/History.antt =====
-- The trace that the loop over the messages keeps, read off the steps that it has passed.
use kakesu.Prelude.{
  Bool, true, false, ◌&&◌, ◌||◌, ◌≡◌, refl, Option, none, some, List, [], ◌∷◌, ◌++◌, String, ◌==◌,
  arith, if◌then◌else◌, append-eq-nil,
}
use kakesu.Js.{ℤ, Value, prop, strict_eq}
use kakesu.Js.Laws.{strict_eq_sound}
use kakesu.Tabletop.Sequence.{
  Problem, payload, report_if, Operation, Trace, seen, first_use, state_of, fingerprint, entity_key,
}
use kakesu.Tabletop.Sequence.Messages.{
  is_message, moves_entity, check_message, check_messages, record_message, or_new_use,
}

pub report_if-nil : (b : Bool) (p : Problem) → report_if b p ≡ [] → b ≡ false
report_if-nil b p h = ground arith

abbrev pub message_id : Value → Value
message_id s = prop "message_id" (payload s)

abbrev pub key_of : Value → Value
key_of s = prop "idempotency_key" (payload s)

abbrev pub entity_of : Value → Value
entity_of s = prop "entity" (payload s)

-- Whether a message among the steps has the id `v`.
unfoldable pub sent : Value → List Value → Bool
sent v [] = false
sent v (s ∷ ss) = is_message s && strict_eq (message_id s) v || sent v ss

-- Where the last message that moved the entity of key `k` left it.
unfoldable pub last_state : String → List Value → Option Value
last_state k [] = none
last_state k (s ∷ ss) = elim (last_state k ss) [
  | some v ↦ some v
  | none ↦
      if is_message s && moves_entity (payload s) && entity_key (entity_of s) == k
      then some (prop "to_state" (entity_of s))
      else none
]

-- The first message with the idempotency key `k`.
unfoldable pub first_with : Value → List Value → Option Value
first_with k [] = none
first_with k (s ∷ ss) = if is_message s && strict_eq (key_of s) k then some s else first_with k ss

abbrev pub or_state : Option Value → Option Value → Option Value
or_state (some v) o = some v
or_state none o = o

abbrev pub or_use : Option Operation → Option Value → Option Operation
or_use (some o) m = some o
or_use none none = none
or_use none (some m) =
    some (record { fingerprint = fingerprint (payload m); message_id = message_id m })

module _ (date_parse : Value → Option ℤ) where
  unfoldable pub after : Trace → List Value → Trace
  after t [] = t
  after t (s ∷ ss) = after (if is_message s then record_message date_parse t s else t) ss

  -- The loop pushes nothing on a list of steps: then it pushes nothing on each message of them.
  pub check_messages-split :
      (steps before : List Value) (t : Trace) (s : Value) (rest : List Value)
      → check_messages date_parse steps t (before ++ s ∷ rest) ≡ []
      → is_message s ≡ true
      → check_message date_parse steps (after t before) s ≡ []
  unfolding check_messages after
  check_messages-split steps [] t s rest h m = let h' = rw m at h in (append-eq-nil _ _ h').0
  check_messages-split steps (a ∷ before) t s rest h m =
      check_messages-split steps before (if is_message a then record_message date_parse t a else t)
        s rest (append-eq-nil _ _ h).1 m

  pub seen-after :
      (v : Value) (t : Trace) (ss : List Value)
      → seen v (after t ss).seen_messages ≡ (sent v ss || seen v t.seen_messages)
  unfolding after sent seen record_message
  seen-after v t [] = refl
  seen-after v t (s ∷ ss) =
      ground (arith, seen-after v t ss, seen-after v (record_message date_parse t s) ss)

  pub state-after :
      (k : String) (t : Trace) (ss : List Value)
      → state_of k (after t ss).entity_states
        ≡ or_state (last_state k ss) (state_of k t.entity_states)
  unfolding after last_state state_of record_message
  state-after k t [] = refl
  state-after k t (s ∷ ss) =
      ground (arith, state-after k t ss, state-after k (record_message date_parse t s) ss)

  first_use-new :
      (k : Value) (p : Value) (us : List (Value × Operation))
      → first_use k (or_new_use (first_use (prop "idempotency_key" p) us) p us)
        ≡ (elim (first_use k us) [
          | some o ↦ some o
          | none ↦
              if strict_eq (prop "idempotency_key" p) k
              then some (record { fingerprint = fingerprint p; message_id = prop "message_id" p })
              else none
        ])
  unfolding first_use
  first_use-new k p us = ground (arith, strict_eq_sound (prop "idempotency_key" p) k)

  pub first_use-after :
      (k : Value) (t : Trace) (ss : List Value)
      → first_use k (after t ss).first_uses ≡ or_use (first_use k t.first_uses) (first_with k ss)
  unfolding after first_with record_message
  first_use-after k t [] = ground arith
  first_use-after k t (s ∷ ss) = ground (
    arith,
    first_use-after k t ss,
    first_use-after k (record_message date_parse t s) ss,
    first_use-new k (payload s) t.first_uses,
  )
