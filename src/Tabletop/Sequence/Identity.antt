-- ===== src/Tabletop/Sequence/Identity.antt =====
-- What an accepted scenario says of its messages: ids, causes, redeliveries, correlation.
use kakesu.Prelude.{
  true, false, not, ◌&&◌, ◌≡◌, Option, none, some, List, [], ◌∷◌, ◌++◌, arith, ap, sym, ◌∙◌,
  if◌then◌else◌, append-eq-nil,
}
use kakesu.Js.{ℤ, Value, null, prop, truthy, strict_eq, same_json}
use kakesu.Js.Laws.{strict_eq_sound}
use kakesu.Tabletop.Sequence.{
  payload, Trace, new_trace, seen, first_use, fingerprint, is_redelivery,
}
use kakesu.Tabletop.Sequence.Messages.{
  is_message, check_causation, check_reuse, check_correlation, check_entity, check_time,
  check_message, check_messages, record_message, validate_sequence,
}
use kakesu.Tabletop.Sequence.History.{
  message_id, key_of, sent, first_with, after, check_messages-split, seen-after, or_use,
  first_use-after,
}

-- The correlation id of the first message that has one.
unfoldable pub first_correlation : List Value → Value
first_correlation [] = null
first_correlation (s ∷ ss) =
    if is_message s && not (strict_eq (prop "correlation_id" (payload s)) null)
    then prop "correlation_id" (payload s)
    else first_correlation ss

module _ (date_parse : Value → Option ℤ) where
  pub record Quiet (steps : List Value) (t : Trace) (s : Value) : Type 0 where
    pub causation : check_causation t s ≡ []
    pub reuse : check_reuse t s ≡ []
    pub correlation : check_correlation steps t s ≡ []
    pub entity : check_entity t s ≡ []
    pub time : check_time date_parse t s ≡ []

  -- Each message of an accepted scenario passes each group of checks, against the trace of the
  -- steps before it.
  pub accepted-Quiet :
      (steps before : List Value) (s : Value) (rest : List Value)
      → validate_sequence date_parse steps ≡ []
      → steps ≡ before ++ s ∷ rest
      → is_message s ≡ true
      → Quiet steps (after date_parse new_trace before) s
  unfolding validate_sequence check_message
  accepted-Quiet steps before s rest h split m =
      let loop = (append-eq-nil _ _ h).1 in
      let loop' =
        ap (λ (l : List Value). check_messages date_parse steps new_trace l) (sym split) ∙ loop in
      let all = check_messages-split date_parse steps before new_trace s rest loop' m in
      let (abcd, e) = append-eq-nil _ _ all in
      let (abc, d) = append-eq-nil _ _ abcd in
      let (ab, c) = append-eq-nil _ _ abc in
      let (a, b) = append-eq-nil _ _ ab in
      record { causation = a; reuse = b; correlation = c; entity = d; time = e }

  quiet-causation :
      (t : Trace) (s : Value)
      → check_causation t s ≡ []
      → (seen (message_id s) t.seen_messages ≡ false)
        × (truthy (prop "causation_message_id" (payload s)) ≡ true
            → seen (prop "causation_message_id" (payload s)) t.seen_messages ≡ true)
  unfolding check_causation
  quiet-causation t s h = ground arith

  -- In an accepted scenario no message repeats the id of an earlier message, and the cause that a
  -- message names is the id of an earlier one.
  pub accepted-causation :
      (steps before : List Value) (s : Value) (rest : List Value)
      → validate_sequence date_parse steps ≡ []
      → steps ≡ before ++ s ∷ rest
      → is_message s ≡ true
      → (sent (message_id s) before ≡ false)
        × (truthy (prop "causation_message_id" (payload s)) ≡ true
            → sent (prop "causation_message_id" (payload s)) before ≡ true)
  unfolding seen
  accepted-causation steps before s rest h split m =
      let q = accepted-Quiet steps before s rest h split m in
      let (fresh, caused) = quiet-causation _ s q.causation in
      ground (
        arith,
        seen-after date_parse (message_id s) new_trace before,
        seen-after date_parse (prop "causation_message_id" (payload s)) new_trace before,
      )

  quiet-reuse :
      (t : Trace) (s m : Value)
      → check_reuse t s ≡ []
      → first_use (key_of s) t.first_uses
        ≡ some (record { fingerprint = fingerprint (payload m); message_id = message_id m })
      → (is_redelivery (payload s) ≡ true)
        × (same_json (fingerprint (payload m)) (fingerprint (payload s)) ≡ true)
        × (strict_eq (prop "redelivery_of_message_id" (payload s)) (message_id m) ≡ true)
  unfolding check_reuse
  quiet-reuse t s m h e = ground arith

  -- In an accepted scenario a message that uses the idempotency key of an earlier message is a
  -- redelivery: it has the fingerprint of the first message with the key, and names that message.
  pub accepted-reuse :
      (steps before : List Value) (s m : Value) (rest : List Value)
      → validate_sequence date_parse steps ≡ []
      → steps ≡ before ++ s ∷ rest
      → is_message s ≡ true
      → first_with (key_of s) before ≡ some m
      → (is_redelivery (payload s) ≡ true)
        × (same_json (fingerprint (payload m)) (fingerprint (payload s)) ≡ true)
        × (strict_eq (prop "redelivery_of_message_id" (payload s)) (message_id m) ≡ true)
  unfolding first_use
  accepted-reuse steps before s m rest h split msg e =
      let q = accepted-Quiet steps before s rest h split msg in
      quiet-reuse _ s m q.reuse
        (first_use-after date_parse (key_of s) new_trace before ∙ ap (or_use none) e)

  correlation-after :
      (t : Trace) (ss : List Value)
      → (after date_parse t ss).correlation
        ≡ (if strict_eq t.correlation null then first_correlation ss else t.correlation)
  unfolding after first_correlation record_message
  correlation-after t [] = ground (arith, strict_eq_sound t.correlation null)
  correlation-after t (s ∷ ss) = ground (
    arith,
    correlation-after t ss,
    correlation-after (record_message date_parse t s) ss,
    strict_eq_sound t.correlation null,
  )

  quiet-correlation :
      (steps : List Value) (t : Trace) (s : Value)
      → check_correlation steps t s ≡ []
      → strict_eq t.correlation null ≡ false
      → strict_eq (prop "correlation_id" (payload s)) t.correlation ≡ true
  unfolding check_correlation
  quiet-correlation steps t s h e = ground arith

  -- In an accepted scenario every message has the correlation id of the first earlier message whose
  -- correlation id is not null, if there is one.
  pub accepted-correlation :
      (steps before : List Value) (s : Value) (rest : List Value)
      → validate_sequence date_parse steps ≡ []
      → steps ≡ before ++ s ∷ rest
      → is_message s ≡ true
      → strict_eq (first_correlation before) null ≡ false
      → strict_eq (prop "correlation_id" (payload s)) (first_correlation before) ≡ true
  unfolding strict_eq
  accepted-correlation steps before s rest h split m some_id =
      let q = accepted-Quiet steps before s rest h split m in
      let same = correlation-after new_trace before in
      ap (strict_eq (prop "correlation_id" (payload s))) (sym same)
      ∙ quiet-correlation steps _ s q.correlation (ap (λ v. strict_eq v null) same ∙ some_id)
