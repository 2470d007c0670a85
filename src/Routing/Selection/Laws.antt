-- ===== src/Routing/Selection/Laws.antt =====
-- What an accepted choice of the developer profile is, and the route of an action.
use kakesu.Prelude.{
  String, true, false, ◌≡◌, refl, sym, ◌≢◌, ◌↔◌, ◌⊎◌, inl, inr, List, [], ◌∷◌, arith,
}
use kakesu.Js.{Value, str, arr, nil, prop, truthy, or_else, strict_eq}
use kakesu.Js.Laws.{strict_eq_sound, strict_eq-str_self}
use kakesu.Result.{ok, >>=-eq-ok, Result-cases}
use kakesu.Routing.Selection.{
  elements, is_str, is_text, check_promotion, promote, first_previous, signal_count, is_empty,
  validate_dev_selection,
}

-- The one promotion that there is: from luna to sol, with who approved it, when and why.
abbrev pub IsPromotion : Value → Type 0
IsPromotion p =
    (prop "from" p ≡ str "luna-xhigh")
    × (prop "to" p ≡ str "sol-high")
    × (truthy (prop "signal" p) ≡ true)
    × (truthy (prop "reason" p) ≡ true)
    × (truthy (prop "approved_by" p) ≡ true)
    × (truthy (prop "approved_at" p) ≡ true)

-- luna is for work without a risk signal, sol for work with one; sol may be a promoted luna.
abbrev pub Suits : List Value → List Value → Value → Type 0
Suits signals promotions profile =
    ((profile ≡ str "luna-xhigh") × (signals ≡ []) × (promotions ≡ []))
    ⊎ ((profile ≡ str "sol-high")
        × (signals ≢ [])
        × ((promotions ≡ []) ⊎ ((p : Value) × (promotions ≡ p ∷ []) × IsPromotion p)))

abbrev pub IsSelected : Value → Value → Type 0
IsSelected plan profile =
    (prop "approved_dev_profile" plan ≡ profile)
    × (truthy (prop "approved_dev_profile_reason" plan) ≡ true)
    × (is_text (prop "approved_dev_profile_reason" plan) ≡ true)
    × ((signals : List Value) × (promotions : List Value) × (signal_count
            (prop "approved_dev_profile_risk_signals" plan)
          ≡ ok signals)
        × (elements (or_else (prop "dev_profile_promotions" plan) (arr nil)) ≡ ok promotions)
        × Suits signals promotions profile)

is_str-eq : (v : Value) (s : String) → is_str v s ≡ true → v ≡ str s
is_str-eq v s h = strict_eq_sound v (str s) h

check_promotion-IsPromotion :
    (previous p : Value)
    → check_promotion previous p ≡ ok tt
    → is_str previous "luna-xhigh" ≡ true × IsPromotion p
unfolding check_promotion
check_promotion-IsPromotion previous p h =
    ground (arith, is_str-eq (prop "from" p) "luna-xhigh", is_str-eq (prop "to" p) "sol-high")

IsPromotion-check :
    (previous p : Value)
    → previous ≡ str "luna-xhigh"
    → IsPromotion p
    → check_promotion previous p ≡ ok tt
unfolding check_promotion
IsPromotion-check previous p e (f, t, s, r, b, a) =
    rw (e, f, t, strict_eq-str_self "luna-xhigh", strict_eq-str_self "sol-high", s, r, b, a) refl

promote-shape :
    (profile : Value) (ps : List Value) {previous : Value}
    → promote (first_previous profile ps) ps ≡ ok previous
    → ((ps ≡ []) × (previous ≡ profile))
      ⊎ ((p : Value) × (ps ≡ p ∷ []) × IsPromotion p × (previous ≡ str "sol-high"))
unfolding promote
promote-shape profile [] h = inl (refl, cc)
promote-shape profile (p ∷ []) h =
    let (u, c, rest) = >>=-eq-ok (check_promotion (prop "from" p) p) (λ _. ok (str "sol-high")) h in
    inr (p, refl, (check_promotion-IsPromotion (prop "from" p) p c).1, cc)
promote-shape profile (p ∷ q ∷ ps) h =
    let (u, c, rest) =
      >>=-eq-ok (check_promotion (prop "from" p) p) (λ _. promote (str "sol-high") (q ∷ ps)) h in
    let (v, d, rest) =
      >>=-eq-ok (check_promotion (str "sol-high") q) (λ _. promote (str "sol-high") ps) rest in
    let wrong = (check_promotion-IsPromotion (str "sol-high") q d).0 in (unfold strict_eq in cc)

is_empty_lem :
    (vs : List Value) → ((vs ≡ []) × (is_empty vs ≡ true)) ⊎ ((vs ≢ []) × (is_empty vs ≡ false))
is_empty_lem [] = inl (refl, refl)
is_empty_lem (v ∷ vs) = inr (λ e. cc, refl)

-- What the tests leave of an accepted plan.
abbrev Fits : Value → List Value → List Value → Value → Type 0
Fits chosen signals promotions previous =
    (((is_str chosen "luna-xhigh" ≡ true) × (is_empty signals ≡ true))
      ⊎ ((is_str chosen "sol-high" ≡ true) × (is_empty signals ≡ false)))
    × ((is_empty promotions ≡ true) ⊎ (strict_eq chosen previous ≡ true))

abbrev Facts : Value → Value → Value → List Value → List Value → Value → Type 0
Facts chosen reason profile signals promotions previous =
    (chosen ≡ profile)
    × (truthy reason ≡ true)
    × (is_text reason ≡ true)
    × Fits chosen signals promotions previous

Suits-of_facts :
    (chosen : Value) (signals promotions : List Value) {previous : Value}
    → ((promotions ≡ []) × (previous ≡ chosen))
      ⊎ ((p : Value) × (promotions ≡ p ∷ []) × IsPromotion p × (previous ≡ str "sol-high"))
    → Fits chosen signals promotions previous
    → Suits signals promotions chosen
Suits-of_facts chosen [] promotions (inl (single, _)) (inl (luna, _), _) =
    inl (is_str-eq chosen "luna-xhigh" luna, refl, single)
Suits-of_facts chosen (v ∷ vs) promotions (inl (single, _)) (inr (sol, _), _) =
    inr (is_str-eq chosen "sol-high" sol, (λ e. cc), inl single)
Suits-of_facts chosen (v ∷ vs) promotions (inr (p, one, promoted, _)) (inr (sol, _), _) =
    inr (is_str-eq chosen "sol-high" sol, (λ e. cc), inr (p, one, promoted))
Suits-of_facts chosen [] promotions (inr (p, one, promoted, high)) (inl (luna, _), inl none_) =
    let wrong = rw one at none_ in cc
Suits-of_facts chosen [] promotions (inr (p, one, promoted, high)) (inl (luna, _), inr same) =
    let wrong = rw (is_str-eq chosen "luna-xhigh" luna, high) at same in unfold strict_eq in cc
Suits-of_facts chosen [] promotions shape (inr (_, wrong), _) = cc
Suits-of_facts chosen (v ∷ vs) promotions shape (inl (_, wrong), _) = cc

validate_dev_selection-IsSelected :
    (plan : Value) {profile : Value}
    → validate_dev_selection plan ≡ ok profile
    → IsSelected plan profile
unfolding validate_dev_selection
validate_dev_selection-IsSelected plan {profile} h =
    let chosen = prop "approved_dev_profile" plan in
    elim (Result-cases (signal_count (prop "approved_dev_profile_risk_signals" plan))) [
      | inr (e, s) ↦ ground arith
      | inl (signals, s) ↦
          elim (Result-cases (elements (or_else (prop "dev_profile_promotions" plan) (arr nil)))) [
            | inr (e, q) ↦ ground arith
            | inl (promotions, q) ↦
                elim (Result-cases (promote (first_previous chosen promotions) promotions)) [
                  | inr (e, m) ↦ ground arith
                  | inl (previous, m) ↦
                      let flags = rw (s, q, m) at h in
                      let facts : Facts chosen (prop "approved_dev_profile_reason" plan) profile
                          signals promotions previous =
                        ground arith in
                      let (e, r, t, suited) = facts in
                      (
                        e,
                        r,
                        t,
                        (
                          signals,
                          promotions,
                          s,
                          q,
                          rw (sym e) (
                              Suits-of_facts chosen signals promotions
                                (promote-shape chosen promotions m) suited),
                        ),
                      )
                ]
          ]
    ]

IsSelected-validate_dev_selection :
    (plan : Value) {profile : Value}
    → IsSelected plan profile
    → validate_dev_selection plan ≡ ok profile
unfolding validate_dev_selection promote strict_eq
IsSelected-validate_dev_selection plan {profile} (e, r, t, (signals, promotions, s, q, suits)) =
    elim suits [
      | inl (luna, quiet, single) ↦ rw (s, q, quiet, single, r, t, e, luna) refl
      | inr (sol, risky, inl single) ↦ elim (is_empty_lem signals) [
        | inl (none_, _) ↦ absurd (risky none_)
        | inr (_, some_) ↦ rw (s, q, some_, single, r, t, e, sol) refl
      ]
      | inr (sol, risky, inr (p, one, promoted)) ↦ elim (is_empty_lem signals) [
        | inl (none_, _) ↦ absurd (risky none_)
        | inr (_, some_) ↦
            rw
              (
                s,
                q,
                some_,
                one,
                r,
                t,
                e,
                sol,
                IsPromotion-check (prop "from" p) p promoted.0 promoted,
              )
              refl
      ]
    ]

-- A plan is accepted with a profile exactly when the profile is the plan's and suits its risk
-- signals: with a reason, luna without a signal and without a promotion, sol with a signal and at
-- most one promotion, which is from luna to sol and says why, by whom and when.
pub validate_dev_selection_exact :
    (plan profile : Value) → validate_dev_selection plan ≡ ok profile ↔ IsSelected plan profile
validate_dev_selection_exact plan profile =
    (validate_dev_selection-IsSelected plan, IsSelected-validate_dev_selection plan)
