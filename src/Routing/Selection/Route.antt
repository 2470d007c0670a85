-- ===== src/Routing/Selection/Route.antt =====
-- The route that an action is given by `resolveFixedRoute` of scripts/task/agent-routing.mjs.
use kakesu.Prelude.{
  String, false, ◌≡◌, refl, sym, ap, ◌∙◌, if◌then◌else◌, ◌⊎◌, inl, inr, Bool-cases, Option-cases,
  List, Option, some, arith, eq_iff, ◌==◌,
}
use kakesu.Js.{Value, str, prop, truthy, or_else, strict_eq}
use kakesu.Js.Laws.{strict_eq_sound}
use kakesu.Result.{>>=-eq-ok, Result, ok, Result-cases}
use kakesu.Routing.Contracts.{Contract, lookup, action_roles, assert_fixed_overrides}
use kakesu.Routing.Selection.{is_str, validate_dev_selection, role_for_action, resolve_fixed_route}
use kakesu.Routing.Selection.Laws.{IsSelected, validate_dev_selection_exact}

-- What a caller may ask for: nothing, or what the contract says anyway.
abbrev pub Agrees : Value → String → Type 0
Agrees v fixed = (truthy v ≡ false) ⊎ (v ≡ str fixed)

abbrev pub Keeps : Contract → Value → Type 0
Keeps c args =
    Agrees (prop "profile" args) c.profile
    × Agrees (prop "model" args) c.model
    × Agrees (or_else (prop "effort" args) (prop "model_reasoning_effort" args)) c.effort

-- The role of an action: that of the table, or, for a handover, the developer whom the plan
-- chooses.
abbrev pub IsRole : String → Option Value → String → Type 0
IsRole action plan role =
    ((lookup action action_roles ≡ some role) × ((action == "handover") ≡ false))
    ⊎ ((p : Value) × (plan ≡ some p)
        × (action ≡ "handover")
        × ((IsSelected p (str "luna-xhigh") × (role ≡ "dev-luna"))
            ⊎ (IsSelected p (str "sol-high") × (role ≡ "dev-sol"))))

assert_fixed_overrides-Keeps :
    (c : Contract) (args : Value) → assert_fixed_overrides c args ≡ ok tt → Keeps c args
unfolding assert_fixed_overrides
assert_fixed_overrides-Keeps c args h = ground (
  arith,
  strict_eq_sound (prop "profile" args) (str c.profile),
  strict_eq_sound (prop "model" args) (str c.model),
  strict_eq_sound (or_else (prop "effort" args) (prop "model_reasoning_effort" args))
      (str c.effort),
)

developer-IsRole :
    (p profile : Value) {role : String}
    → IsSelected p profile
    → (if is_str profile "luna-xhigh" then "dev-luna" else "dev-sol") ≡ role
    → (IsSelected p (str "luna-xhigh") × (role ≡ "dev-luna"))
      ⊎ (IsSelected p (str "sol-high") × (role ≡ "dev-sol"))
unfolding strict_eq
developer-IsRole p profile (e, r, t, (signals, promotions, s, q, inl suits)) h = inl (
  (e ∙ suits.0, r, t, (signals, promotions, s, q, inl (refl, suits.1, suits.2))),
  sym (rw suits.0 at h),
)
developer-IsRole p profile (e, r, t, (signals, promotions, s, q, inr suits)) h = inr (
  (e ∙ suits.0, r, t, (signals, promotions, s, q, inr (refl, suits.1, suits.2))),
  sym (rw suits.0 at h),
)

role_for_action-IsRole :
    (action : String) (plan : Option Value) {role : String}
    → role_for_action action plan ≡ ok (some role)
    → IsRole action plan role
unfolding role_for_action
role_for_action-IsRole action plan h = elim (Bool-cases (action == "handover")) [
  | inr other ↦ inl (ground arith, other)
  | inl same ↦ elim (Option-cases plan) [
    | inl missing ↦ ground arith
    | inr (p, there) ↦ elim (Result-cases (validate_dev_selection p)) [
      | inr (e, failed) ↦ ground arith
      | inl (profile, accepted) ↦ inr (
        p,
        there,
        (eq_iff action "handover").0 same,
        developer-IsRole p profile ((validate_dev_selection_exact p profile).0 accepted)
            (ground arith),
      )
    ]
  ]
]

module _ (read_canonical_contracts : Result (List (String × Contract))) where
  -- A route that is given is the contract that was read for the action's role, and the caller asked
  -- for nothing else.
  pub resolve_fixed_route-fixed :
      (action : String) (plan : Option Value) (args : Value) (role : String) (c : Contract)
      → resolve_fixed_route read_canonical_contracts action plan args ≡ ok (role, some c)
      → IsRole action plan role
        × Keeps c args
        × ((contracts : List (String × Contract)) × (read_canonical_contracts ≡ ok contracts)
            × (lookup role contracts ≡ some c))
  unfolding resolve_fixed_route
  resolve_fixed_route-fixed action plan args role c h =
      let (found_role, found, h₁) = >>=-eq-ok (role_for_action action plan) _ h in
      elim (Option-cases found_role) [
        | inl unknown ↦ let none_given = rw unknown at h₁ in cc
        | inr (r, named) ↦
            let (contracts, read, h₂) = >>=-eq-ok read_canonical_contracts _ (rw named at h₁) in
            elim (Option-cases (lookup r contracts)) [
              | inl missing ↦ ground arith
              | inr (d, there) ↦
                  let (_, kept, made) =
                    >>=-eq-ok (assert_fixed_overrides d args) _ (rw there at h₂) in
                  let er : r ≡ role = cc (made) in
                  let ed : d ≡ c = cc (made) in
                  (
                    rw (sym er) (role_for_action-IsRole action plan (found ∙ ap ok named)),
                    rw (sym ed) (assert_fixed_overrides-Keeps d args kept),
                    (contracts, read, rw (sym er, sym ed) there),
                  )
            ]
      ]
