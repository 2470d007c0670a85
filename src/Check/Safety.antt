-- ===== src/Check/Safety.antt =====
-- `checkSafetyContractDone` of scripts/task/check-task.mjs: what a finished safety contract shows.
pub mod Laws
use kakesu.Prelude.{
  ℕ, String, Bool, true, false, ◌&&◌, ◌||◌, not, Option, none, some, List, [], ◌∷◌, any, all, map,
  if◌then◌else◌, ◌⧺◌, ◌==◌,
}
use kakesu.Js.{
  Value, ℤ, int_lt, str, arr, obj, undefined, null, fields, prop, to_text, strict_eq, or_else,
}
use kakesu.Js.Trim.{trim}
use kakesu.Work.Texts.{strip, split, includes}
use kakesu.Work.Node.{Node}
use kakesu.Work.Documents.{parse_frontmatter}
use kakesu.Check.Findings.{Check, ◌>>=◌, ◌>>◌, lift, reports, steps, only_if, attempt}
use kakesu.Check.Values.{is, is_filled, is_sha, text_or_empty, about}
use kakesu.Check.Contract.{Contract}
use kakesu.Check.Changes.{safety_candidate_merged}

-- The text after the first place where one of the words stands.
unfoldable pub after_any : List String → String → Option String
unfolding strip
after_any words String.[] = none
after_any words (String.◌∷◌ c s) =
    let later = after_any words s in
    elim (first_of words (String.◌∷◌ c s)) [ some rest ↦ some rest | none ↦ later ]
  where
    first_of : List String → String → Option String
    first_of [] t = none
    first_of (w ∷ ws) t = elim (strip w t) [ some rest ↦ some rest | none ↦ first_of ws t ]

-- Whether words, with alternatives, stand in a line one after the other.
unfoldable pub in_order : List (List String) → String → Bool
unfolding after_any
in_order [] line = true
in_order (words ∷ rest) line = elim (after_any words line) [
  | some after_them ↦ in_order rest after_them
  | none ↦ false
]

-- `SAFETY_CONTRACT_EXCLUSION`, whose gaps stay on a line. What is optional in it may be part of
-- a gap.
abbrev exclusion : List (List String)
exclusion =
    ("製品コード" ∷ [])
    ∷ ("test" ∷ "テスト" ∷ [])
    ∷ ("runtime/build設定" ∷ [])
    ∷ ("Schema" ∷ [])
    ∷ ("製品依存" ∷ [])
    ∷ ("挙動" ∷ [])
    ∷ []

abbrev pub excludes_products : String → String → Bool
excludes_products id text =
    any (in_order exclusion) (split 10 text)
    || (id == "TASK-0024" && includes "製品コード、製品test、runtime/build設定、製品Schema、製品依存、製品挙動" text)

abbrev pub safety_check_keys : List String
safety_check_keys = "process_tests" ∷ "contract_scope" ∷ "docs_lint" ∷ "make_check" ∷ []

abbrev has_key : List (String × Value) → String → Bool
has_key [] key = false
has_key ((k, _) ∷ rest) key = k == key || has_key rest key

abbrev four : List (String × Value) → Bool
four (_ ∷ _ ∷ _ ∷ _ ∷ []) = true
four _ = false

-- The sorted keys of an object, which has no key twice, are the four keys exactly when there are four
-- and each of the four is one of them.
abbrev pub has_exact_keys : Value → Bool
has_exact_keys (obj fs) = four (fields fs) && all (has_key (fields fs)) safety_check_keys
has_exact_keys _ = false

module _ (node : Node) where
  -- `isTimestamp`
  abbrev pub is_timestamp : Value → Bool
  is_timestamp (str s) = elim (node.parse_date (str s)) [
    | some _ ↦ not (trim s == "")
    | none ↦ false
  ]
  is_timestamp _ = false

  abbrev later : ℤ → ℤ → Bool
  later a b = int_lt b a

  -- The plan and the QA plan were approved before the classification.
  abbrev pub times_agree : Option ℤ → Option ℤ → Option ℤ → Bool
  times_agree (some a) (some b) (some c) = not (later a c) && not (later b c)
  times_agree _ _ _ = false

  unfoldable pub safety_reports :
      String → Value → String → Value → Value → Value → List (Bool × String)
  safety_reports id task text plan qa_plan handover =
      let assignees = prop "assignees" task in
      let passed = prop "safety_checks" handover in
      (
        not (excludes_products id text),
        about id "safety_contract requires an explicit product-artifact exclusion in TASK.md",
      )
      ∷ (
        not (is "safety_contract" (prop "change_class" plan))
            || not (is "safety_contract" (prop "change_class" qa_plan)),
        about id "safety_contract change_class must match in PLAN.md and QA_PLAN.md",
      )
      ∷ (
        not (strict_eq (prop "classification_approved_by" plan) (prop "main" assignees))
            || not (is_filled (prop "classification_approval_reason" plan))
            || not (is_timestamp (prop "classification_approved_at" plan)),
        about id "safety_contract classification requires approval by the assigned main Agent",
      )
      ∷ (
        not (strict_eq (prop "qa_agent" qa_plan) (prop "qa" assignees))
            || not (strict_eq (prop "approved_by" qa_plan) (prop "main" assignees)),
        about id
            "safety_contract requires a TASK-first QA PLAN approved by the assigned main Agent",
      )
      ∷ (
        not (
            times_agree (node.parse_date (prop "approved_at" plan))
              (node.parse_date (prop "approved_at" qa_plan))
              (node.parse_date (prop "classification_approved_at" plan))),
        about id "safety_contract approval timestamps are inconsistent",
      )
      ∷ (
        not (has_exact_keys passed)
            || not (all (λ key. is "pass" (prop key passed)) safety_check_keys)
            || not (is_timestamp (prop "safety_checked_at" handover)),
        about id "safety_contract requires the exact passed safety_checks and checked_at",
      )
      ∷ []

  -- Evidence of a task that records its merge needs no candidate.
  abbrev pub is_merged_already : Value → Value → Bool
  is_merged_already task handover =
      is "safety_contract_complete" (prop "status" handover)
      && is_filled (prop "merged_commit" task)

  unfoldable pub check_safety_candidate : String → String → Contract → Value → Check (Unit {0})
  check_safety_candidate root id contract handover =
      let candidate = text_or_empty (prop "candidate_commit" handover) in
      if is_sha candidate
      then attempt (λ e. about id ("safety_contract Git evidence is invalid: " ⧺ e))
          (safety_candidate_merged node root contract candidate)
      else reports ((true, about id "safety_contract done requires HANDOVER candidate_commit") ∷ [])

  -- `checkSafetyContractDone`
  unfoldable pub check_safety_contract_done :
      String → String → Value → String → Contract → Check (Unit {0})
  check_safety_contract_done root dir task id contract = do
    plan ← lift (parse_frontmatter node (node.path_join dir "PLAN.md"))
    qa_plan ← lift (parse_frontmatter node (node.path_join dir "QA_PLAN.md"))
    handover ← lift (parse_frontmatter node (node.path_join dir "HANDOVER.md"))
    text ← lift (node.read_text (node.path_join dir "TASK.md"))
    reports (safety_reports id task text plan qa_plan handover)
    only_if (not (is_merged_already task handover))
        (check_safety_candidate root id contract handover)
