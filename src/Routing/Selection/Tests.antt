-- ===== src/Routing/Selection/Tests.antt =====
-- Plans and routes, and the theorems at them.
use kakesu.Prelude.{String, ◌≡◌, refl, ◌↔◌}
use kakesu.Js.{Value, str, arr, obj, field, end, nil, cons, prop, own, truthy, strict_eq}
use kakesu.Result.{ok, throw}
use kakesu.Routing.Selection.{check_promotion, promote, validate_dev_selection}
use kakesu.Routing.Selection.Laws.{IsSelected, validate_dev_selection_exact}

abbrev promotion : Value
promotion = obj (
    field "from" (str "luna-xhigh") (
      field "to" (str "sol-high") (
        field "signal" (str "race") (
          field "reason" (str "a race was found")
            (field "approved_by" (str "main") (field "approved_at" (str "2026-01-01") end))))))

abbrev chosen : String → Value → Value → Value
chosen profile signals promotions = obj (
    field "approved_dev_profile" (str profile) (
      field "approved_dev_profile_reason" (str "measured") (
        field "approved_dev_profile_risk_signals" signals
          (field "dev_profile_promotions" promotions end))))

abbrev promoted : Value
promoted = chosen "sol-high" (arr (cons (str "race") nil)) (arr (cons promotion nil))

promoted_once : validate_dev_selection promoted ≡ ok (str "sol-high")
unfolding validate_dev_selection prop own truthy strict_eq promote check_promotion
promoted_once = refl

promoted_twice :
    validate_dev_selection
      (chosen "sol-high" (arr (cons (str "race") nil)) (arr (cons promotion (cons promotion nil))))
    ≡ throw "DEV_PROFILE_DOWNGRADE_OR_INVALID_PROMOTION"
unfolding validate_dev_selection prop own truthy strict_eq promote check_promotion
promoted_twice = refl

validate_dev_selection_exact_example :
    validate_dev_selection promoted ≡ ok (str "sol-high") ↔ IsSelected promoted (str "sol-high")
validate_dev_selection_exact_example = validate_dev_selection_exact promoted (str "sol-high")
