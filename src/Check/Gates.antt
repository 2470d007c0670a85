-- ===== src/Check/Gates.antt =====
-- The gates of `checkTask` in scripts/task/check-task.mjs: before development, before the test of
-- the result, and at the end.
use kakesu.Prelude.{
  ℕ, String, Bool, true, false, ◌&&◌, ◌||◌, not, List, [], ◌∷◌, map, if◌then◌else◌, ◌⧺◌, nat_eq,
  leb,
}
use Prim.Native.Nat.{◌+◌}
use Prim.Native.Char.{code}
use kakesu.Js.{Value, obj, end, prop, to_text, truthy, strict_eq, or_else}
use kakesu.Js.Trim.{is_space}
use kakesu.Result.{ok, throw}
use kakesu.Work.Texts.{includes}
use kakesu.Routing.Selection.{validate_dev_selection}
use kakesu.Check.Findings.{Check, reports}
use kakesu.Check.Values.{is, text_or_empty, about}

abbrev lower : ℕ → ℕ
lower c = if leb b'A' c && leb c b'Z' then c + 32 else c

-- Whether a text starts with a lower-case word, in any case.
unfoldable pub starts_with_word : String → String → Bool
starts_with_word String.[] s = true
starts_with_word (String.◌∷◌ d w) String.[] = false
starts_with_word (String.◌∷◌ d w) (String.◌∷◌ c s) =
    nat_eq (code d) (lower (code c)) && starts_with_word w s

unfoldable pub includes_word : String → String → Bool
unfolding starts_with_word
includes_word w String.[] = false
includes_word w (String.◌∷◌ c s) = starts_with_word w (String.◌∷◌ c s) || includes_word w s

-- /\s*check/i and /\s+check/i
unfoldable pub then_check : String → Bool
unfolding starts_with_word
then_check String.[] = false
then_check (String.◌∷◌ c s) =
    let later = then_check s in
    starts_with_word "check" (String.◌∷◌ c s) || (is_space (code c) && later)

abbrev after_make : String → Bool
after_make (String.◌∷◌ c s) = is_space (code c) && then_check s
after_make String.[] = false

-- /make\s+check/i
unfoldable pub includes_make_check : String → Bool
unfolding starts_with_word then_check
includes_make_check (String.◌∷◌ m (String.◌∷◌ a (String.◌∷◌ k (String.◌∷◌ e s)))) =
    (starts_with_word "make" (String.◌∷◌ m (String.◌∷◌ a (String.◌∷◌ k (String.◌∷◌ e s))))
      && after_make s)
    || includes_make_check (String.◌∷◌ a (String.◌∷◌ k (String.◌∷◌ e s)))
includes_make_check _ = false

-- /candidate/i and /(?:DEV|make\s+check)/i
abbrev pub records_audit : String → Bool
records_audit text =
    includes_word "candidate" text && (includes_word "dev" text || includes_make_check text)

abbrev pub marker_of : Value → String
marker_of profile = if is "luna-xhigh" profile then "luna-xhigh" else "sol-high"

-- The profile that the plan chooses is that of the developer.
abbrev pub check_developer : String → Value → Value → Check (Unit {0})
check_developer id task plan = elim (validate_dev_selection plan) [
  | throw e ↦ reports ((true, about id e) ∷ [])
  | ok profile ↦ reports (
      (
        not (includes (marker_of profile) (text_or_empty (prop "dev" (prop "assignees" task)))),
        about id ("assignees.dev must match approved DEV profile " ⧺ to_text profile),
      )
      ∷ [])
]

abbrev pub is_approved : Value → Bool
is_approved document =
    is "approved" (prop "status" document)
    && truthy (prop "approved_by" document)
    && truthy (prop "approved_at" document)

-- `task.assignees ?? {}`
abbrev pub assignees_of : Value → Value
assignees_of task = or_else (prop "assignees" task) (obj end)

abbrev pub approvals : String → Value → Value → List (Bool × String)
approvals id plan qa_plan =
    (not (is_approved plan), about id "DEV gate requires an approved PLAN.md")
    ∷ (not (is_approved qa_plan), about id "DEV gate requires an approved QA_PLAN.md")
    ∷ []

abbrev pub roles : String → Value → List (Bool × String)
roles id assignees =
    map
      (λ role.
        (not (truthy (prop role assignees)), about id ("DEV gate requires assignees." ⧺ role)))
      ("main" ∷ "planner" ∷ "dev" ∷ "reviewer" ∷ "qa" ∷ [])

abbrev pub separation : String → Value → Value → Value → List (Bool × String)
separation id assignees plan qa_plan =
    (
      not (strict_eq (prop "planner_agent" plan) (prop "planner" assignees))
          || not (strict_eq (prop "approved_by" plan) (prop "main" assignees)),
      about id "PLAN author and approver must match assigned Planner and main Agents",
    )
    ∷ (
      not (strict_eq (prop "qa_agent" qa_plan) (prop "qa" assignees))
          || not (strict_eq (prop "approved_by" qa_plan) (prop "main" assignees)),
      about id "QA PLAN author and approver must match assigned QA and main Agents",
    )
    ∷ (
      strict_eq (prop "dev" assignees) (prop "reviewer" assignees),
      about id "DEV Agent and Reviewer Agent must be different",
    )
    ∷ (
      strict_eq (prop "dev" assignees) (prop "qa" assignees),
      about id "DEV Agent and QA Agent must be different",
    )
    ∷ []
