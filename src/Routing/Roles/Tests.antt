-- ===== src/Routing/Roles/Tests.antt =====
-- The role files of the repository, shortened, and the theorems at them.
use kakesu.Prelude.{String, true, none, some, ◌≡◌, refl, ◌==◌, if◌then◌else◌, ◌⧺◌, starts_with}
use kakesu.Js.{null, truthy, prop}
use kakesu.Js.Trim.{trim_start, trim_end, is_space}
use kakesu.Result.{ok}
use kakesu.Work.Node.{Node}
use kakesu.Work.Texts.{strip, split, join}
use kakesu.Routing.Contracts.{role_contracts, lookup, terra_medium, assert_fixed_overrides}
use kakesu.Routing.Config.{split_lines, section_name, assignment, quoted, has_terminator}
use kakesu.Routing.Config.Reader.{
  after_prefix, open_section, set_field, assign, read_line, read_lines, pick, pick_roles,
  read_project_config,
}
use kakesu.Routing.Config.Tests.{config}
use kakesu.Routing.Selection.{resolve_fixed_route, role_for_action}
use kakesu.Routing.Selection.Route.{IsRole, Keeps}
use kakesu.Routing.Patterns.{
  first_line, ends_line, until_quote, quoted_value, strip_word, after_word, follow, has_words,
  after_header, until_header, toml_section,
}
use kakesu.Routing.Roles.{
  check_explorer, check_wiki, check_agents, check_policy, check_keys, actual_of, read_contract,
  read_role, read_roles, read_canonical_contracts,
}
use kakesu.Routing.Roles.Laws.{read_canonical_contracts-fixed, resolve_fixed_route-canonical}

abbrev head : String → String → String → String → String
head name model effort sandbox =
    "name = \"" ⧺ name ⧺ "\"\nmodel = \"gpt-5.6-" ⧺ model ⧺ "\"\nmodel_reasoning_effort = \""
    ⧺ effort ⧺ "\"\nsandbox_mode = \"" ⧺ sandbox ⧺ "\"\n"

abbrev worker : String → String → String → String
worker name model effort =
    head name model effort "workspace-write"
    ⧺ "\n[agents]\r\nmax_threads = 2\n\n[agents.explorer]\n"

abbrev explorer : String
explorer =
    head "explorer" "luna" "medium" "read-only"
    ⧺ "Answer exactly one bounded question. Do not edit files or spawn another agent.\n"
    ⧺ "[agents]\nmax_threads = 1\nmax_depth = 0\n"

abbrev wiki : String
wiki =
    head "wiki" "terra" "medium" "workspace-write"
    ⧺ "Wiki Editing only. Do not spawn, stage, commit, merge, or write to .git.\n"
    ⧺ "[agents]\nmax_threads = 1\nmax_depth = 0\n"

abbrev content : String → String
content file =
    if file == ".codex/config.toml"
    then config
    else if file == "explorer.toml"
    then explorer
    else if file == "wiki.toml"
    then wiki
    else if file == "main.toml"
    then worker "main" "sol" "high"
    else if file == "dev-sol.toml"
    then worker "dev-sol" "sol" "high"
    else if file == "dev-luna.toml"
    then worker "dev-luna" "luna" "xhigh"
    else if file == "planner.toml"
    then worker "planner" "terra" "medium"
    else if file == "qa.toml"
    then worker "qa" "terra" "medium"
    else worker "reviewer" "terra" "medium"

abbrev node : Node
node = record {
  exists = λ path. true;
  is_file = λ path. true;
  read_text = λ path. ok (content path);
  realpath = λ path. ok path;
  spawn = λ root program args. record { error = none; status = some 0; stdout = ""; stderr = "" };
  is_absolute = λ path. starts_with path "/";
  resolve = λ root path. path;
  path_join = λ dir file. file;
  normalize = λ path. path;
  extname = λ path. ".md";
  dirname = λ path. path;
  parse_yaml = λ text. ok null;
  parse_date = λ date. none;
  ci = true;
}

read_here : read_canonical_contracts node "/r" ≡ ok role_contracts
unfolding read_canonical_contracts read_project_config split_lines read_lines read_line trim_start
    trim_end is_space starts_with section_name assignment quoted open_section after_prefix lookup
    assign set_field pick pick_roles has_terminator read_roles read_role read_contract actual_of
    check_keys check_policy check_explorer check_wiki check_agents quoted_value first_line ends_line
    until_quote strip_word after_word follow has_words after_header until_header toml_section strip
    split join
read_here = refl

read_canonical_contracts-fixed_example : role_contracts ≡ role_contracts
read_canonical_contracts-fixed_example = read_canonical_contracts-fixed node "/r" read_here

routed :
    resolve_fixed_route (read_canonical_contracts node "/r") "plan" none null
    ≡ ok ("planner", some terra_medium)
unfolding resolve_fixed_route role_for_action assert_fixed_overrides lookup truthy prop
routed = rw read_here refl

resolve_fixed_route-canonical_example :
    IsRole "plan" none "planner"
    × Keeps terra_medium null
    × (lookup "planner" role_contracts ≡ some terra_medium)
resolve_fixed_route-canonical_example =
    resolve_fixed_route-canonical node "/r" "plan" none null "planner" terra_medium routed
