-- ===== src/Routing/Roles.antt =====
-- `readCanonicalContracts` of scripts/task/agent-routing.mjs: the role files say what the contracts of
-- the program say.
pub mod Laws
mod Tests
use kakesu.Prelude.{
  String, Bool, true, not, ◌||◌, ◌&&◌, none, some, List, [], ◌∷◌, ◌==◌, if◌then◌else◌, ◌⧺◌,
}
use kakesu.Result.{Result, ok, throw, ◌>>=◌, ◌>>◌, throw_if}
use kakesu.Work.Node.{Node}
use kakesu.Routing.Contracts.{Contract, role_contracts}
use kakesu.Routing.Config.Reader.{read_project_config}
use kakesu.Routing.Patterns.{quoted_value, toml_section, has_setting, has_key, has_words}

unfoldable pub check_explorer : String → Result (Unit {0})
check_explorer content = do
  throw_if
      (not (has_words "exactly one bounded" [] content)
        || not (has_words "do not " ("spawn" ∷ []) content))
      "ROUTING_EXPLORER_POLICY_MISSING"
  throw_if
      (not (has_setting "max_depth" "0" content) || not (has_setting "max_threads" "1" content))
      "ROUTING_EXPLORER_CHILD_POLICY_MISSING"

abbrev bad_wiki_section : String → Bool
bad_wiki_section content = elim (toml_section content "agents") [
  | none ↦ true
  | some agents ↦
      not (has_setting "max_threads" "1" agents) || not (has_setting "max_depth" "0" agents)
]

unfoldable pub check_wiki : String → Result (Unit {0})
check_wiki content = do
  throw_if (bad_wiki_section content) "ROUTING_WIKI_CHILD_POLICY_MISMATCH: wiki"
  throw_if
      (not (has_words "editing only" [] content)
        || not (has_words "do not " ("spawn" ∷ []) content)
        || not (has_words "stage" ("commit" ∷ "merge" ∷ []) content)
        || not (has_words ".git" [] content))
      "ROUTING_WIKI_EDIT_ONLY_POLICY_MISSING"

unfoldable pub check_agents : String → String → Result (Unit {0})
check_agents role content = elim (toml_section content "agents") [
  | none ↦ throw ("ROUTING_ROLE_THREAD_POLICY_MISMATCH: " ⧺ role)
  | some agents ↦ do
    throw_if (not (has_setting "max_threads" "2" agents))
        ("ROUTING_ROLE_THREAD_POLICY_MISMATCH: " ⧺ role)
    throw_if (has_key "max_depth" agents) ("ROUTING_ROLE_LOCAL_DEPTH_FORBIDDEN: " ⧺ role)
]

-- What a role may do with children.
unfoldable pub check_policy : String → String → Result (Unit {0})
check_policy role content =
    if role == "explorer"
    then check_explorer content
    else if role == "wiki"
    then check_wiki content
    else check_agents role content

abbrev mismatch : String → String → String
mismatch role key = "ROUTING_CONTRACT_MISMATCH: " ⧺ (role ⧺ ("." ⧺ key))

-- `actual[key] !== expected[key]`
unfoldable pub check_keys : String → Contract → Contract → Result (Unit {0})
check_keys role expected actual = do
  throw_if (not (actual.model == expected.model)) (mismatch role "model")
  throw_if (not (actual.effort == expected.effort)) (mismatch role "effort")
  throw_if (not (actual.sandbox == expected.sandbox)) (mismatch role "sandbox")

-- `actual`; its profile is not read.
unfoldable pub actual_of : String → String → Result Contract
actual_of profile content = do
  model ← quoted_value content "model"
  effort ← quoted_value content "model_reasoning_effort"
  sandbox ← quoted_value content "sandbox_mode"
  ok (record { profile = profile; model = model; effort = effort; sandbox = sandbox })

unfoldable pub read_contract : String → Contract → String → Result Contract
read_contract role expected content = do
  actual ← actual_of expected.profile content
  name ← quoted_value content "name"
  throw_if (not (name == role)) ("ROUTING_ROLE_NAME_MISMATCH: " ⧺ role)
  check_keys role expected actual
  ok actual

module _ (node : Node) (product_root : String) where
  abbrev role_file : String → String
  role_file role = node.path_join (node.path_join product_root ".codex/agents") (role ⧺ ".toml")

  unfoldable pub read_role : String → Contract → Result Contract
  read_role role expected = do
    throw_if (not (node.exists (role_file role))) "ROUTING_CONFIG_MISSING: "
    content ← node.read_text (role_file role)
    actual ← read_contract role expected content
    check_policy role content
    ok actual

  unfoldable pub read_roles : List (String × Contract) → Result (List (String × Contract))
  read_roles [] = ok []
  read_roles ((role, expected) ∷ rest) =
      let later = read_roles rest in
      (do actual ← read_role role expected; contracts ← later; ok ((role, actual) ∷ contracts))

  -- `readCanonicalContracts`
  unfoldable pub read_canonical_contracts : Result (List (String × Contract))
  read_canonical_contracts = do
    content ← node.read_text (node.path_join product_root ".codex/config.toml")
    config ← read_project_config content
    read_roles role_contracts
