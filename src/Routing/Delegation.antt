-- ===== src/Routing/Delegation.antt =====
-- Delegation to the explorer and the outcome of a work child: `validateExplorerQuestion`,
-- `validateDelegation` and `validateChildOutcome` of scripts/task/agent-routing.mjs.
pub mod Laws
mod Tests
use kakesu.Prelude.{
  ℕ, zero, suc, ◌-◌, String, Bool, true, false, ◌||◌, ◌&&◌, not, Option, none, some, List, [], ◌∷◌,
  ◌==◌, any, length, ltb, leb, nat_eq, if◌then◌else◌, starts_with,
}
use Prim.Native.Char.{code}
use kakesu.Js.{Value, str, arr, num, pos, items, int_eq, int_lt, strict_eq, undefined}
use kakesu.Js.Trim.{trim, utf16_length}
use kakesu.Result.{Result, ok, throw, ◌>>=◌, ◌>>◌, throw_if}
use kakesu.Scope.{directory_glob}

abbrev pub max_explorer_question_length : ℕ
max_explorer_question_length = 500

abbrev pub codex_default_max_threads : ℕ
codex_default_max_threads = 6

abbrev pub codex_default_max_depth : ℕ
codex_default_max_depth = 1

-- /[\r\n]/
unfoldable pub has_newline : String → Bool
has_newline String.[] = false
has_newline (String.◌∷◌ c s) = nat_eq (code c) 13 || nat_eq (code c) 10 || has_newline s

unfoldable pub validate_explorer_question : Value → Result String
validate_explorer_question (str q) = do
  throw_if (trim q == "") "ROUTING_BOUNDED_QUESTION_REQUIRED"
  throw_if (not (q == trim q) || has_newline q || ltb max_explorer_question_length (utf16_length q))
      "ROUTING_BOUNDED_QUESTION_INVALID"
  ok q
validate_explorer_question _ = throw "ROUTING_BOUNDED_QUESTION_REQUIRED"

abbrev is_word : String → Value → Bool
is_word w v = strict_eq v (str w)

abbrev last : Value → List Value → Value
last v [] = v
last v (w ∷ ws) = last w ws

abbrev but_last : List Value → List Value
but_last [] = []
but_last (v ∷ []) = []
but_last (v ∷ w ∷ vs) = v ∷ but_last (w ∷ vs)

abbrev is_chain : List Value → Bool
is_chain [] = false
is_chain (v ∷ vs) = leb 2 (length (v ∷ vs)) && is_word "root" v && is_word "explorer" (last v vs)

abbrev thread_count : Value → Bool
thread_count (num n) = not (int_lt n (pos 1)) && not (int_lt (pos codex_default_max_threads) n)
thread_count _ = false

-- `chain.slice(0, -1).includes("explorer")`, and the depth of the chain.
abbrev check_hops : List Value → Result (Unit {0})
check_hops chain = do
  throw_if (any (is_word "explorer") (but_last chain)) "ROUTING_EXPLORER_SPAWN_FORBIDDEN"
  throw_if (ltb codex_default_max_depth (length chain - 1)) "ROUTING_MAX_DEPTH_EXCEEDED"

abbrev one_question : List Value → Result String
one_question (q ∷ []) = validate_explorer_question q
one_question _ = throw "ROUTING_BOUNDED_QUESTION_REQUIRED"

abbrev chain_of : Value → Result (List Value)
chain_of (arr vs) =
    if is_chain (items vs) then ok (items vs) else throw "ROUTING_DELEGATION_INVALID"
chain_of _ = throw "ROUTING_DELEGATION_INVALID"

-- `validateDelegation`, whose questions are a list and whose thread count is 1 where none is given.
unfoldable pub validate_delegation : Value → List Value → Value → Result Bool
validate_delegation chain questions threads = do
  hops ← chain_of chain
  check_hops hops
  throw_if (not (thread_count threads)) "ROUTING_MAX_THREADS_EXCEEDED"
  question ← one_question questions
  ok true

-- What a work child left behind.
pub record Outcome : Type 0 where
  pub child_exit : Value
  pub before_head : String
  pub after_head : String
  pub staged_files : List String
  pub changed_files : List String
  pub allowed_paths : List String

abbrev pub covers : String → String → Bool
covers file rule = elim (directory_glob rule) [
  | some directory ↦ starts_with file directory
  | none ↦ file == rule
]

abbrev pub forbidden : List String → List String → List String
forbidden allowed [] = []
forbidden allowed (file ∷ files) =
    let rest = forbidden allowed files in if any (covers file) allowed then rest else file ∷ rest

abbrev pub is_none : List String → Bool
is_none [] = true
is_none (_ ∷ _) = false

-- `validateChildOutcome`
unfoldable pub validate_child_outcome : Outcome → Result (List String)
validate_child_outcome o = do
  throw_if (not (strict_eq o.child_exit (num (pos 0)))) "WORK_CHILD_FAILED"
  throw_if (not (o.before_head == o.after_head)) "WORK_CHILD_COMMIT_FORBIDDEN"
  throw_if (not (is_none o.staged_files)) "WORK_CHILD_STAGE_FORBIDDEN"
  throw_if (is_none o.changed_files) "WORK_NO_CHANGES"
  throw_if (not (is_none (forbidden o.allowed_paths o.changed_files))) "WORK_SCOPE_VIOLATION:"
  ok o.changed_files
