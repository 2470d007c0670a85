-- ===== src/Routing/Delegation/Laws.antt =====
-- Which delegations and outcomes of work children are accepted.
use kakesu.Prelude.{
  ℕ, ◌≤◌, String, true, false, ◌≡◌, refl, sym, ap, ◌≢◌, ◌↔◌, inl, inr, Bool-cases, List, [], ◌∷◌,
  arith, eq_iff, any, All, ltb, ◌==◌,
}
use kakesu.Js.{Value, num, str, arr, pos, negsuc, nil, cons, items, strict_eq}
use kakesu.Js.Laws.{strict_eq_sound, strict_eq-str_self}
use kakesu.Js.Trim.{trim, utf16_length, starts_blank, ends_blank, trim-eq_self}
use kakesu.Result.{ok, Result-cases}
use kakesu.Routing.Delegation.{
  has_newline, validate_explorer_question, validate_delegation, Outcome, covers, forbidden, is_none,
  chain_of, one_question, check_hops, thread_count, validate_child_outcome,
  max_explorer_question_length, is_word,
}

-- One line, without blanks around it, of at most 500 units.
abbrev pub IsBounded : String → Type 0
IsBounded q =
    (starts_blank q ≡ false)
    × (ends_blank q ≡ false)
    × (has_newline q ≡ false)
    × utf16_length q ≤ max_explorer_question_length

abbrev pub IsDelegation : Value → List Value → Value → Type 0
IsDelegation chain questions threads =
    (chain ≡ arr (cons (str "root") (cons (str "explorer") nil)))
    × ((q : String) × (questions ≡ str q ∷ []) × IsBounded q)
    × ((n : ℕ) × (threads ≡ num (pos n)) × 1 ≤ n × n ≤ 6)

validate_explorer_question-IsBounded :
    (v : Value) {q : String} → validate_explorer_question v ≡ ok q → (v ≡ str q) × IsBounded q
unfolding validate_explorer_question
validate_explorer_question-IsBounded (str s) {q} h =
    let tests : ((s == trim s) ≡ true)
        × ((trim s == "") ≡ false)
        × (has_newline s ≡ false)
        × (utf16_length s ≤ 500)
        × (s ≡ q) =
      ground arith in
    let (own, full, one, short, same) = tests in
    let (starts, ends) = (trim-eq_self s).0 (own, full) in
    rw (sym same) (refl, (starts, ends, one, short))
validate_explorer_question-IsBounded v h = cc

IsBounded-validate_explorer_question :
    (q : String) → IsBounded q → validate_explorer_question (str q) ≡ ok q
unfolding validate_explorer_question
IsBounded-validate_explorer_question q (starts, ends, one, short) =
    let (own, full) = (trim-eq_self q).1 (starts, ends) in
    let fits : ltb max_explorer_question_length (utf16_length q) ≡ false = ground arith in
    rw (own, full, one, fits) refl

chain_of-exact :
    (chain : Value) {hops : List Value}
    → chain_of chain ≡ ok hops
    → check_hops hops ≡ ok tt
    → chain ≡ arr (cons (str "root") (cons (str "explorer") nil))
chain_of-exact (arr nil) h k = cc
chain_of-exact (arr (cons v nil)) h k = ground arith
chain_of-exact (arr (cons v (cons w nil))) h k =
    let tests : (is_word "root" v ≡ true) × (is_word "explorer" w ≡ true) = ground arith in
    rw (strict_eq_sound v (str "root") tests.0, strict_eq_sound w (str "explorer") tests.1) refl
chain_of-exact (arr (cons v (cons w (cons x vs)))) {hops} h k =
    let same : hops ≡ items (cons v (cons w (cons x vs))) = ground arith in
    let deep = rw same at k in ground arith
chain_of-exact v h k = cc

thread_count-exact :
    (v : Value) → thread_count v ≡ true → (n : ℕ) × (v ≡ num (pos n)) × 1 ≤ n × n ≤ 6
thread_count-exact (num (pos n)) h = (n, refl, ground arith, ground arith)
thread_count-exact (num (negsuc n)) h = cc
thread_count-exact v h = cc

one_question-exact :
    (questions : List Value) {q : String}
    → one_question questions ≡ ok q
    → (questions ≡ str q ∷ []) × IsBounded q
one_question-exact [] h = cc
one_question-exact (v ∷ []) h =
    let (same, bounded) = validate_explorer_question-IsBounded v h in
    (ap (λ w. w ∷ []) same, bounded)
one_question-exact (v ∷ w ∷ vs) h = cc

-- A delegation is accepted exactly when its chain is root and explorer, its threads are from 1 to
-- 6, and it has one question, a single line of 1 to 500 units without blanks around it.
pub validate_delegation_exact :
    (chain : Value) (questions : List Value) (threads : Value)
    → validate_delegation chain questions threads ≡ ok true ↔ IsDelegation chain questions threads
unfolding validate_delegation
validate_delegation_exact chain questions threads = (
  λ h. elim (Result-cases (chain_of chain)) [
    | inr (e, failed) ↦ ground arith
    | inl (hops, found) ↦ elim (Result-cases (one_question questions)) [
      | inr (e, failed) ↦ ground arith
      | inl (q, asked) ↦
          let tests : (check_hops hops ≡ ok tt) × (thread_count threads ≡ true) = ground arith in
          (
            chain_of-exact chain found tests.0,
            (q, (one_question-exact questions asked).0, (one_question-exact questions asked).1),
            thread_count-exact threads tests.1,
          )
    ]
  ],
  λ (root, (q, one, bounded), (n, count, low, high)).
      rw
        (
          root,
          one,
          count,
          strict_eq-str_self "root",
          strict_eq-str_self "explorer",
          IsBounded-validate_explorer_question q bounded,
        )
        (unfold strict_eq in ground arith),
)

uncovered :
    (allowed files : List String)
    → (is_none (forbidden allowed files) ≡ true)
      ↔ All (λ file. any (covers file) allowed ≡ true) files
uncovered allowed [] = (λ h. tt, λ h. refl)
uncovered allowed (file ∷ files) = elim (Bool-cases (any (covers file) allowed)) [
  | inl covered ↦
      rw covered (λ h. (refl, (uncovered allowed files).0 h), λ h. (uncovered allowed files).1 h.1)
  | inr missed ↦ rw missed (λ h. cc, λ h. cc (h.0))
]

abbrev pub IsLawful : Outcome → Type 0
IsLawful o =
    (o.child_exit ≡ num (pos 0))
    × (o.before_head ≡ o.after_head)
    × (o.staged_files ≡ [])
    × (o.changed_files ≢ [])
    × All (λ file. any (covers file) o.allowed_paths ≡ true) o.changed_files

nothing : (files : List String) → (is_none files ≡ true) ↔ (files ≡ [])
nothing [] = (λ h. refl, λ h. refl)
nothing (f ∷ fs) = (λ h. cc, λ h. cc)

something : (files : List String) → (is_none files ≡ false) ↔ (files ≢ [])
something [] = (λ h. cc, λ h. absurd (h refl))
something (f ∷ fs) = (λ h e. cc, λ h. refl)

-- An outcome is accepted, with its changed files, exactly when the child exited with 0, left HEAD
-- and the index alone, and changed files, all of which an allowed path covers.
pub validate_child_outcome_exact :
    (o : Outcome) (files : List String)
    → validate_child_outcome o ≡ ok files ↔ (files ≡ o.changed_files) × IsLawful o
unfolding validate_child_outcome
validate_child_outcome_exact o files = (
  λ h.
      let tests : (files ≡ o.changed_files)
          × (strict_eq o.child_exit (num (pos 0)) ≡ true)
          × ((o.before_head == o.after_head) ≡ true)
          × (is_none o.staged_files ≡ true)
          × (is_none o.changed_files ≡ false)
          × (is_none (forbidden o.allowed_paths o.changed_files) ≡ true) =
        ground arith in
      let (same, exit, head, index, some_, scope) = tests in
      (
        same,
        (
          strict_eq_sound o.child_exit (num (pos 0)) exit,
          (eq_iff _ _).0 head,
          (nothing o.staged_files).0 index,
          (something o.changed_files).0 some_,
          (uncovered o.allowed_paths o.changed_files).0 scope,
        ),
      ),
  λ (same, (exit, head, index, some_, scope)).
      rw
        (
          same,
          exit,
          (eq_iff o.before_head o.after_head).1 head,
          (nothing o.staged_files).1 index,
          (something o.changed_files).1 some_,
          (uncovered o.allowed_paths o.changed_files).1 scope,
        )
        (unfold strict_eq in refl),
)
