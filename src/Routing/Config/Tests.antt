-- ===== src/Routing/Config/Tests.antt =====
-- The configuration of the repository, and the theorem at it.
use kakesu.Prelude.{String, none, ◌≡◌, refl, ◌⧺◌, starts_with}
use kakesu.Js.Trim.{trim_start, trim_end, is_space}
use kakesu.Result.{ok, throw}
use kakesu.Routing.Contracts.{lookup}
use kakesu.Routing.Config.{
  project_config, project_role_registry, split_lines, section_name, assignment, quoted,
  has_terminator,
}
use kakesu.Routing.Config.Reader.{
  after_prefix, open_section, set_field, assign, read_line, read_lines, pick, pick_roles,
  read_project_config,
}
use kakesu.Routing.Config.Lines.{AreLines}
use kakesu.Routing.Config.Laws.{Matches, read_project_config-fixed}

-- .codex/config.toml
abbrev pub config : String
config =
    "model = \"gpt-5.6-sol\"\n" ⧺ "model_reasoning_effort = \"high\"\n"
    ⧺ "sandbox_mode = \"workspace-write\"\n" ⧺ "\n" ⧺ "[agents.main]\n"
    ⧺ "description = \"Root orchestration and approval using Sol/high.\"\n"
    ⧺ "config_file = \"agents/main.toml\"\n" ⧺ "\n" ⧺ "[agents.planner]\n"
    ⧺ "description = \"PLAN authoring using Terra/medium.\"\n"
    ⧺ "config_file = \"agents/planner.toml\"\n" ⧺ "\n" ⧺ "[agents.qa]\n"
    ⧺ "description = \"QA planning and execution using Terra/medium.\"\n"
    ⧺ "config_file = \"agents/qa.toml\"\n" ⧺ "\n" ⧺ "[agents.reviewer]\n"
    ⧺ "description = \"Independent review using Terra/medium.\"\n"
    ⧺ "config_file = \"agents/reviewer.toml\"\n" ⧺ "\n" ⧺ "[agents.dev-luna]\n"
    ⧺ "description = \"Low-risk DEV implementation using Luna/xhigh.\"\n"
    ⧺ "config_file = \"agents/dev-luna.toml\"\n" ⧺ "\n" ⧺ "[agents.dev-sol]\n"
    ⧺ "description = \"High or unknown-risk DEV implementation using Sol/high.\"\n"
    ⧺ "config_file = \"agents/dev-sol.toml\"\n" ⧺ "\n" ⧺ "[agents.explorer]\n"
    ⧺ "description = \"Bounded read-only repository research using Luna/medium.\"\n"
    ⧺ "config_file = \"agents/explorer.toml\"\n" ⧺ "\n" ⧺ "[agents.wiki]\n"
    ⧺ "description = \"Wiki editing only using Terra/medium.\"\n"
    ⧺ "config_file = \"agents/wiki.toml\"\n"

pub read_config : read_project_config config ≡ ok (project_config, project_role_registry)
unfolding read_project_config split_lines read_lines read_line trim_start trim_end is_space
    starts_with section_name assignment quoted open_section after_prefix lookup assign set_field
    pick pick_roles has_terminator
read_config = refl

repeated :
    read_project_config ("model = \"gpt-5.6-sol\"\n" ⧺ config)
    ≡ throw "ROUTING_PROJECT_KEY_DUPLICATE: "
unfolding read_project_config split_lines read_lines read_line trim_start trim_end is_space
    starts_with section_name assignment quoted open_section after_prefix lookup assign set_field
    pick pick_roles has_terminator
repeated = refl

read_project_config-fixed_example :
    AreLines none (split_lines config)
    × (project_config ≡ project_config)
    × Matches project_role_registry project_role_registry
read_project_config-fixed_example =
    read_project_config-fixed config project_config project_role_registry read_config
