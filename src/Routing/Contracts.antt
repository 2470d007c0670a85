-- ===== src/Routing/Contracts.antt =====
-- `ROLE_CONTRACTS`, `ACTION_ROLES` and `assertFixedOverrides` of
-- scripts/task/agent-routing.mjs.
use kakesu.Prelude.{String, Bool, ◌&&◌, not, Option, none, some, List, [], ◌∷◌, ◌==◌, if◌then◌else◌}
use kakesu.Js.{Value, str, prop, truthy, or_else, strict_eq}
use kakesu.Result.{Result, ◌>>◌, throw_if}

pub record Contract : Type 0 where
  pub profile : String
  pub model : String
  pub effort : String
  pub sandbox : String

abbrev pub sol_high : Contract
sol_high = record {
  profile = "sol-high";
  model = "gpt-5.6-sol";
  effort = "high";
  sandbox = "workspace-write";
}

abbrev pub terra_medium : Contract
terra_medium = record {
  profile = "terra-medium";
  model = "gpt-5.6-terra";
  effort = "medium";
  sandbox = "workspace-write";
}

abbrev pub luna_xhigh : Contract
luna_xhigh = record {
  profile = "luna-xhigh";
  model = "gpt-5.6-luna";
  effort = "xhigh";
  sandbox = "workspace-write";
}

abbrev pub luna_medium : Contract
luna_medium = record {
  profile = "luna-medium";
  model = "gpt-5.6-luna";
  effort = "medium";
  sandbox = "read-only";
}

-- `ROLE_CONTRACTS`, in the order of its keys.
abbrev pub role_contracts : List (String × Contract)
role_contracts =
    ("main", sol_high)
    ∷ ("planner", terra_medium)
    ∷ ("qa", terra_medium)
    ∷ ("reviewer", terra_medium)
    ∷ ("dev-luna", luna_xhigh)
    ∷ ("dev-sol", sol_high)
    ∷ ("explorer", luna_medium)
    ∷ ("wiki", terra_medium)
    ∷ []

unfoldable pub lookup {ℓ} : {A : Type ℓ} → String → List (String × A) → Option A
lookup k [] = none
lookup k ((j, a) ∷ rest) = if j == k then some a else lookup k rest

abbrev pub action_roles : List (String × String)
action_roles =
    ("task", "main")
    ∷ ("plan", "planner")
    ∷ ("qa-plan", "qa")
    ∷ ("review", "reviewer")
    ∷ ("qa-result", "qa")
    ∷ ("main-transition", "main")
    ∷ ("governance", "main")
    ∷ []

-- `value && value !== contract[key]`
abbrev overrides : Value → String → Bool
overrides v fixed = truthy v && not (strict_eq v (str fixed))

-- `assertFixedOverrides`
unfoldable pub assert_fixed_overrides : Contract → Value → Result (Unit {0})
assert_fixed_overrides c args = do
  throw_if (overrides (prop "profile" args) c.profile) "ROUTING_OVERRIDE_MISMATCH: profile"
  throw_if (overrides (prop "model" args) c.model) "ROUTING_OVERRIDE_MISMATCH: model"
  throw_if (overrides (or_else (prop "effort" args) (prop "model_reasoning_effort" args)) c.effort)
      "ROUTING_OVERRIDE_MISMATCH: effort"
