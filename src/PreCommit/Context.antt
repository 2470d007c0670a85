-- ===== src/PreCommit/Context.antt =====
-- `maskSection` of scripts/task/work-pre-commit.mjs: a text without the body of one of its sections.
pub mod Laws
use kakesu.Prelude.{String, Option, none, some, ◌⧺◌}
use kakesu.Result.{Result, ok, throw}
use kakesu.Work.Texts.{strip}

-- What precedes the first heading, and what follows it.
unfoldable pub split_at : String → String → Option (String × String)
split_at t String.[] = elim (strip t String.[]) [ some rest ↦ some ("", rest) | none ↦ none ]
split_at t (String.◌∷◌ c s) = elim (strip t (String.◌∷◌ c s)) [
  | some rest ↦ some ("", rest)
  | none ↦ elim (split_at t s) [
    | some (before, rest) ↦ some (String.◌∷◌ c before, rest)
    | none ↦ none
  ]
]

-- From the next heading of the second level on; it starts after a line break.
unfoldable pub next_section : String → String
next_section String.[] = ""
next_section (String.◌∷◌ c s) = elim (strip "\n## " (String.◌∷◌ c s)) [
  | some _ ↦ s
  | none ↦ next_section s
]

-- `maskSection`
unfoldable pub mask_section : String → String → Result String
mask_section heading value = elim (split_at (heading ⧺ "\n") value) [
  | none ↦ throw "missing "
  | some (before, body) ↦ ok (before ⧺ (heading ⧺ ("\n" ⧺ ("\n<CONTEXT>\n" ⧺ next_section body))))
]
