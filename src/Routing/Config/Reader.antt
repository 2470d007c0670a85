-- ===== src/Routing/Config/Reader.antt =====
-- The loop of `readProjectConfig` over the lines, and what it requires after them.
use kakesu.Prelude.{
  String, Bool, true, false, ◌||◌, ◌&&◌, not, Option, none, some, List, [], ◌∷◌, ◌==◌, any,
  if◌then◌else◌, starts_with, ◌++◌,
}
use kakesu.Js.Trim.{trim}
use kakesu.Result.{Result, ok, throw, ◌>>=◌, ◌>>◌, throw_if}
use kakesu.Routing.Contracts.{lookup}
use kakesu.Routing.Config.{
  Table, fixed_keys, project_config, project_role_registry, has_own, split_lines, section_name,
  assignment, quoted,
}

pub record State : Type 0 where
  pub section : Option String
  pub seen_sections : List String
  pub top_level : Table
  pub registry : List (String × Table)

abbrev pub initial : State
initial = record { section = none; seen_sections = []; top_level = []; registry = [] }

-- `s.slice(prefix.length)`, for an `s` that starts with the prefix.
unfoldable pub after_prefix : String → String → String
after_prefix String.[] s = s
after_prefix (String.◌∷◌ d p) String.[] = ""
after_prefix (String.◌∷◌ d p) (String.◌∷◌ c s) = after_prefix p s

abbrev pub role_of : String → String
role_of section = after_prefix "agents." section

abbrev is_among : List String → String → Bool
is_among words w = any (λ v. v == w) words

abbrev pub opened : State → String → State
opened st section = record {
  section = some section;
  seen_sections = section ∷ st.seen_sections;
  top_level = st.top_level;
  registry = st.registry ++ (role_of section, []) ∷ [];
}

unfoldable pub open_section : State → String → Result State
open_section st section = do
  throw_if (section == "features.multi_agent_v2") "ROUTING_PROJECT_FEATURE_FORBIDDEN"
  throw_if (section == "agents") "ROUTING_PROJECT_AGENTS_HEADER_FORBIDDEN"
  throw_if (not (starts_with section "agents.")) "ROUTING_PROJECT_SECTION_UNKNOWN: "
  throw_if (is_among st.seen_sections section) "ROUTING_PROJECT_SECTION_DUPLICATE: "
  throw_if (not (has_own (role_of section) project_role_registry)) "ROUTING_PROJECT_ROLE_UNKNOWN: "
  ok (opened st section)

abbrev or_undefined : {A : Type 0} → Option A → Result A
or_undefined none = throw "Cannot convert undefined or null to object"
or_undefined (some a) = ok a

-- `expected`
abbrev pub expected_in : Option String → Option Table
expected_in none = some project_config
expected_in (some section) = lookup (role_of section) project_role_registry

abbrev pub expects : Option Table → String → Option String
expects none key = none
expects (some table) key = lookup key table

abbrev pub destination : State → Result Table
destination st = elim st.section [
  | none ↦ ok st.top_level
  | some section ↦ or_undefined (lookup (role_of section) st.registry)
]

unfoldable pub set_field : String → String → String → List (String × Table) → List (String × Table)
set_field role key value [] = []
set_field role key value ((r, table) ∷ rest) =
    let others = set_field role key value rest in
    if r == role then (r, table ++ (key, value) ∷ []) ∷ rest else (r, table) ∷ others

abbrev pub store : State → String → String → State
store st key value = elim st.section [
  | none ↦ record {
    section = none;
    seen_sections = st.seen_sections;
    top_level = st.top_level ++ (key, value) ∷ [];
    registry = st.registry;
  }
  | some section ↦ record {
    section = some section;
    seen_sections = st.seen_sections;
    top_level = st.top_level;
    registry = set_field (role_of section) key value st.registry;
  }
]

abbrev in_top : Option String → Bool
in_top none = true
in_top (some _) = false

abbrev check_key : State → String → Result (Unit {0})
check_key st key = do
  throw_if (key == "hide_spawn_agent_metadata" || key == "tool_namespace")
      "ROUTING_PROJECT_KEY_FORBIDDEN: "
  throw_if (key == "features.multi_agent_v2" || starts_with key "features.multi_agent_v2.")
      "ROUTING_PROJECT_FEATURE_FORBIDDEN"
  throw_if (in_top st.section && (key == "agents.max_threads" || key == "agents.max_depth"))
      "ROUTING_PROJECT_GLOBAL_OVERRIDE_FORBIDDEN: "
  throw_if (in_top st.section && (key == "agents" || starts_with key "agents."))
      "ROUTING_PROJECT_KEY_UNKNOWN: "

abbrev checked_value : String → String → Option String → Result String
checked_value key wanted none = throw "ROUTING_PROJECT_CONFIG_INVALID: line "
checked_value key wanted (some value) =
    if value == wanted
    then ok value
    else throw (
        if key == "config_file"
        then "ROUTING_PROJECT_ROLE_MAPPING_MISMATCH: "
        else "ROUTING_PROJECT_VALUE_MISMATCH: ")

unfoldable pub assign : State → String → String → Result State
assign st key raw = do
  check_key st key
  elim (expects (expected_in st.section) key) [
    | none ↦ throw "ROUTING_PROJECT_KEY_UNKNOWN: "
    | some wanted ↦ do
      table ← destination st
      throw_if (has_own key table) "ROUTING_PROJECT_KEY_DUPLICATE: "
      value ← checked_value key wanted (quoted raw)
      ok (store st key value)
  ]

unfoldable pub read_line : State → String → Result State
read_line st source_line =
    let line = trim source_line in
    if line == "" || starts_with line "#" then ok st else elim (section_name line) [
      | some name ↦ open_section st (trim name)
      | none ↦ elim (assignment line) [
        | none ↦ throw "ROUTING_PROJECT_CONFIG_INVALID: line "
        | some (key, raw) ↦ assign st key raw
      ]
    ]

unfoldable pub read_lines : State → List String → Result State
read_lines st [] = ok st
read_lines st (l ∷ ls) = read_line st l >>= λ next. read_lines next ls

-- `Object.fromEntries(keys.map((key) => [key, table[key]]))`, with every key required.
unfoldable pub pick : String → List String → Table → Result Table
pick missing [] table = ok []
pick missing (k ∷ ks) table = elim (lookup k table) [
  | none ↦ throw missing
  | some v ↦ do rest ← pick missing ks table; ok ((k, v) ∷ rest)
]

abbrev pub require : Table → Table → Result (Unit {0})
require [] table = ok tt
require ((k, _) ∷ expected) table = do
  throw_if (not (has_own k table)) "ROUTING_PROJECT_ROLE_FIELD_MISSING: "
  require expected table

unfoldable pub pick_roles :
    List (String × Table) → List (String × Table) → Result (List (String × Table))
pick_roles [] registry = ok []
pick_roles ((role, expected) ∷ roles) registry = elim (lookup role registry) [
  | none ↦ throw "ROUTING_PROJECT_ROLE_MISSING: "
  | some table ↦ do
    require expected table
    rest ← pick_roles roles registry
    ok ((role, table) ∷ rest)
]

unfoldable pub read_project_config : String → Result (Table × List (String × Table))
unfolding split_lines
read_project_config content = do
  st ← read_lines initial (split_lines content)
  top_level ← pick "ROUTING_CONFIG_INVALID: missing " fixed_keys st.top_level
  agents ← pick_roles project_role_registry st.registry
  ok (top_level, agents)
