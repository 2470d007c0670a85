-- ===== src/Routing/Config.antt =====
-- `readProjectConfig` of scripts/task/agent-routing.mjs, on the text of .codex/config.toml.
-- Lines are cut at line feeds only: `trim` takes a carriage return before one away.
pub mod Reader
pub mod Entries
pub mod Lines
pub mod Laws
pub mod Tests
use kakesu.Prelude.{
  ℕ, String, Bool, true, false, ◌||◌, ◌&&◌, not, Option, none, some, List, [], ◌∷◌, ◌==◌, any,
  nat_eq, if◌then◌else◌, starts_with, is_digit, is_lower, is_upper, ◌⧺◌,
}
use Prim.Native.Char.{code}
use kakesu.Js.Trim.{trim, trim_start, is_space}
use kakesu.Result.{Result, ok, throw, ◌>>=◌, ◌>>◌, throw_if}
use kakesu.Routing.Contracts.{lookup}

abbrev pub Table : Type 0
Table = List (String × String)

abbrev pub fixed_keys : List String
fixed_keys = "model" ∷ "model_reasoning_effort" ∷ "sandbox_mode" ∷ []

abbrev pub project_config : Table
project_config =
    ("model", "gpt-5.6-sol")
    ∷ ("model_reasoning_effort", "high")
    ∷ ("sandbox_mode", "workspace-write")
    ∷ []

abbrev described : String → String → Table
described description file = ("description", description) ∷ ("config_file", file) ∷ []

abbrev pub project_role_registry : List (String × Table)
project_role_registry =
    ("main", described "Root orchestration and approval using Sol/high." "agents/main.toml")
    ∷ ("planner", described "PLAN authoring using Terra/medium." "agents/planner.toml")
    ∷ ("qa", described "QA planning and execution using Terra/medium." "agents/qa.toml")
    ∷ ("reviewer", described "Independent review using Terra/medium." "agents/reviewer.toml")
    ∷ ("dev-luna", described "Low-risk DEV implementation using Luna/xhigh." "agents/dev-luna.toml")
    ∷ (
      "dev-sol",
      described "High or unknown-risk DEV implementation using Sol/high." "agents/dev-sol.toml",
    )
    ∷ (
      "explorer",
      described "Bounded read-only repository research using Luna/medium." "agents/explorer.toml",
    )
    ∷ ("wiki", described "Wiki editing only using Terra/medium." "agents/wiki.toml")
    ∷ []

abbrev pub has_own {ℓ} : {A : Type ℓ} → String → List (String × A) → Bool
has_own k table = elim (lookup k table) [ none ↦ false | some _ ↦ true ]

-- Lines

abbrev add_char : Prim.Native.Char.Char → List String → List String
add_char c [] = String.◌∷◌ c String.[] ∷ []
add_char c (l ∷ ls) = String.◌∷◌ c l ∷ ls

unfoldable pub split_lines : String → List String
split_lines String.[] = "" ∷ []
split_lines (String.◌∷◌ c s) =
    let rest = split_lines s in if nat_eq (code c) 10 then "" ∷ rest else add_char c rest

-- The text before the final "]", which is the first one.
unfoldable pub before_bracket : String → Option String
before_bracket String.[] = none
before_bracket (String.◌∷◌ c s) =
    let rest = before_bracket s in
    if nat_eq (code c) b']'
    then (if s == "" then some "" else none)
    else elim rest [ none ↦ none | some r ↦ some (String.◌∷◌ c r) ]

-- /^\[([^\]]+)]$/
unfoldable pub section_name : String → Option String
unfolding before_bracket
section_name String.[] = none
section_name (String.◌∷◌ c s) =
    if nat_eq (code c) b'['
    then elim (before_bracket s) [ none ↦ none | some r ↦ if r == "" then none else some r ]
    else none

abbrev is_key_char : ℕ → Bool
is_key_char c =
    is_upper c || is_lower c || is_digit c || nat_eq c b'_' || nat_eq c b'.' || nat_eq c b'-'

-- The longest beginning of key characters, and the rest.
unfoldable pub key_span : String → String × String
key_span String.[] = ("", "")
key_span (String.◌∷◌ c s) =
    let (k, r) = key_span s in
    if is_key_char (code c) then (String.◌∷◌ c k, r) else ("", String.◌∷◌ c s)

-- The characters that `.` does not match.
unfoldable pub has_terminator : String → Bool
has_terminator String.[] = false
has_terminator (String.◌∷◌ c s) =
    nat_eq (code c) 10
    || nat_eq (code c) 13
    || nat_eq (code c) 8232
    || nat_eq (code c) 8233
    || has_terminator s

abbrev after_equals : String → Option String
after_equals String.[] = none
after_equals (String.◌∷◌ c s) =
    if nat_eq (code c) b'='
    then (let raw = trim_start s in if raw == "" || has_terminator raw then none else some raw)
    else none

-- /^([A-Za-z0-9_.-]+)\s*=\s*(.+)$/
unfoldable pub assignment : String → Option (String × String)
unfolding key_span
assignment line =
    let (key, rest) = key_span line in
    if key == ""
    then none
    else elim (after_equals (trim_start rest)) [ none ↦ none | some raw ↦ some (key, raw) ]

unfoldable pub before_quote : String → Option String
before_quote String.[] = none
before_quote (String.◌∷◌ c s) =
    let rest = before_quote s in
    if nat_eq (code c) b'"'
    then (if s == "" then some "" else none)
    else elim rest [ none ↦ none | some r ↦ some (String.◌∷◌ c r) ]

-- /^"([^"]*)"$/
unfoldable pub quoted : String → Option String
unfolding before_quote
quoted String.[] = none
quoted (String.◌∷◌ c s) = if nat_eq (code c) b'"' then before_quote s else none
