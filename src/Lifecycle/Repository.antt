-- ===== src/Lifecycle/Repository.antt =====
-- What scripts/task/unified-lifecycle.mjs asks of git and of the YAML library, and the front matter
-- of a document. A question throws where the command fails.
use kakesu.Prelude.{
  ℕ, String, Bool, true, false, ◌&&◌, Option, none, some, List, nat_eq, if◌then◌else◌, ◌==◌,
}
use Prim.Native.Char.{code}
use kakesu.Js.{Value}
use kakesu.Result.{Result}

pub record Git : Type 0 where
  -- `git diff --name-only a...b`, and `git diff --name-only a b`
  pub diff_paths : String → String → Result (List String)
  pub diff_names : String → String → Result (List String)
  -- `git rev-list --parents -n 1 commit`: the commit and its parents
  pub rev_list_parents : String → Result (List String)
  -- `git rev-list --count a..b`
  pub rev_list_count : String → String → Result ℕ
  pub merge_base : String → String → Result String
  pub rev_parse : String → Result String
  -- `git show commit:path`
  pub show : String → String → Result String
  -- `YAML.parse`
  pub parse_yaml : String → Result Value

-- What follows /\r?\n/.
unfoldable pub after_newline : String → Option String
after_newline String.[] = none
after_newline (String.◌∷◌ c String.[]) = if nat_eq (code c) 10 then some "" else none
after_newline (String.◌∷◌ c (String.◌∷◌ d s)) =
    if nat_eq (code c) 10
    then some (String.◌∷◌ d s)
    else if nat_eq (code c) 13 && nat_eq (code d) 10
    then some s
    else none

-- What follows "---".
unfoldable pub after_rule : String → Option String
after_rule (String.◌∷◌ a (String.◌∷◌ b (String.◌∷◌ c s))) =
    if nat_eq (code a) b'-' && nat_eq (code b) b'-' && nat_eq (code c) b'-' then some s else none
after_rule _ = none

abbrev is_end : String → Bool
is_end s = elim (after_newline s) [ some _ ↦ true | none ↦ s == "" ]

-- /\r?\n---(?:\r?\n|$)/
abbrev closes : String → Bool
closes s = elim (after_newline s) [
  | none ↦ false
  | some t ↦ elim (after_rule t) [ none ↦ false | some u ↦ is_end u ]
]

-- The shortest text before a closing rule.
unfoldable pub body : String → Option String
unfolding after_newline after_rule
body String.[] = none
body (String.◌∷◌ c s) =
    let rest = body s in
    if closes (String.◌∷◌ c s)
    then some ""
    else elim rest [ none ↦ none | some b ↦ some (String.◌∷◌ c b) ]

-- /^---\r?\n([\s\S]*?)\r?\n---(?:\r?\n|$)/
unfoldable pub front_matter : String → Option String
unfolding after_newline after_rule body
front_matter content = elim (after_rule content) [
  | none ↦ none
  | some s ↦ elim (after_newline s) [ none ↦ none | some t ↦ body t ]
]
