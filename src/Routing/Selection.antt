-- ===== src/Routing/Selection.antt =====
-- `validateDevSelection`, `roleForAction` and `resolveFixedRoute` of
-- scripts/task/agent-routing.mjs. The front matter of PLAN.md is a value; reading the role files
-- (`readCanonicalContracts`) is a parameter of the route.
pub mod Laws
pub mod Route
mod Tests
use kakesu.Prelude.{
  String, Bool, true, false, ◌&&◌, ◌||◌, not, Option, none, some, List, [], ◌∷◌, ◌==◌,
  if◌then◌else◌,
}
use kakesu.Js.{Value, str, arr, nil, items, prop, truthy, or_else, strict_eq}
use kakesu.Result.{Result, ok, throw, ◌>>=◌, ◌>>◌, throw_if}
use kakesu.Routing.Contracts.{Contract, lookup, action_roles, assert_fixed_overrides}

-- The values that `for … of` runs through.
abbrev pub characters : String → List Value
characters String.[] = []
characters (String.◌∷◌ c s) = str (String.◌∷◌ c String.[]) ∷ characters s

abbrev pub elements : Value → Result (List Value)
elements (arr vs) = ok (items vs)
elements (str s) = ok (characters s)
elements _ = throw "promotions is not iterable"

abbrev pub is_str : Value → String → Bool
is_str v s = strict_eq v (str s)

abbrev pub is_text : Value → Bool
is_text (str s) = true
is_text _ = false

unfoldable pub check_promotion : Value → Value → Result (Unit {0})
check_promotion previous p = do
  throw_if
      (not (is_str (prop "from" p) "luna-xhigh")
        || not (is_str (prop "to" p) "sol-high")
        || not (is_str previous "luna-xhigh"))
      "DEV_PROFILE_DOWNGRADE_OR_INVALID_PROMOTION"
  throw_if (not (truthy (prop "signal" p))) "DEV_PROFILE_PROMOTION_SIGNAL_MISSING"
  throw_if (not (truthy (prop "reason" p))) "DEV_PROFILE_PROMOTION_REASON_MISSING"
  throw_if (not (truthy (prop "approved_by" p))) "DEV_PROFILE_PROMOTION_APPROVED_BY_MISSING"
  throw_if (not (truthy (prop "approved_at" p))) "DEV_PROFILE_PROMOTION_APPROVED_AT_MISSING"

-- The loop over the promotions; its result is the last value of `previous`.
unfoldable pub promote : Value → List Value → Result Value
promote previous [] = ok previous
promote previous (p ∷ ps) = do check_promotion previous p; promote (str "sol-high") ps

abbrev pub first_previous : Value → List Value → Value
first_previous profile [] = profile
first_previous profile (p ∷ ps) = prop "from" p

abbrev pub signal_count : Value → Result (List Value)
signal_count (arr vs) = ok (items vs)
signal_count _ = throw "DEV_PROFILE_RISK_SIGNALS_MISSING"

abbrev pub is_empty : List Value → Bool
is_empty [] = true
is_empty (_ ∷ _) = false

unfoldable pub validate_dev_selection : Value → Result Value
validate_dev_selection plan = do
  let profile = prop "approved_dev_profile" plan
  let reason = prop "approved_dev_profile_reason" plan
  throw_if (not (is_str profile "luna-xhigh" || is_str profile "sol-high")) "DEV_PROFILE_UNKNOWN"
  throw_if (not (truthy reason) || not (is_text reason)) "DEV_PROFILE_REASON_MISSING"
  signals ← signal_count (prop "approved_dev_profile_risk_signals" plan)
  throw_if (is_str profile "luna-xhigh" && not (is_empty signals)) "DEV_LUNA_HAS_RISK_SIGNAL"
  throw_if (is_str profile "sol-high" && is_empty signals) "DEV_SOL_RISK_SIGNAL_MISSING"
  promotions ← elements (or_else (prop "dev_profile_promotions" plan) (arr nil))
  previous ← promote (first_previous profile promotions) promotions
  throw_if (not (is_empty promotions) && not (strict_eq profile previous))
      "DEV_PROFILE_PROMOTION_RESULT_MISMATCH"
  ok profile

-- `roleForAction`, with the plan's front matter where there is a plan file.
unfoldable pub role_for_action : String → Option Value → Result (Option String)
role_for_action action plan =
    if not (action == "handover") then ok (lookup action action_roles) else elim plan [
      | none ↦ throw "DEV_PLAN_REQUIRED"
      | some p ↦ do
        profile ← validate_dev_selection p
        ok (some (if is_str profile "luna-xhigh" then "dev-luna" else "dev-sol"))
    ]

abbrev asked_for : Value → Bool
asked_for args =
    truthy (prop "profile" args)
    || truthy (prop "model" args)
    || truthy (or_else (prop "effort" args) (prop "model_reasoning_effort" args))

module _ (read_canonical_contracts : Result (List (String × Contract))) where
  -- `resolveFixedRoute`. A role without a contract would give a route with the role only.
  unfoldable pub resolve_fixed_route :
      String → Option Value → Value → Result (String × Option Contract)
  resolve_fixed_route action plan args = do
    found ← role_for_action action plan
    elim found [
      | none ↦ throw "ROUTING_ROLE_UNKNOWN"
      | some role ↦ do
        contracts ← read_canonical_contracts
        elim (lookup role contracts) [
          | none ↦ do
            throw_if (asked_for args) "Cannot read properties of undefined"
            ok (role, none)
          | some c ↦ do assert_fixed_overrides c args; ok (role, some c)
        ]
    ]
