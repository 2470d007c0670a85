-- ===== src/PreCommit/Decisions.antt =====
-- What scripts/task/work-pre-commit.mjs demands of a staged decision: `normalizeStatus`, and the loop
-- over the decisions.
use kakesu.Prelude.{
  ℕ, String, Bool, true, false, not, ◌&&◌, ◌||◌, Option, none, some, List, [], ◌∷◌, ◌==◌, nat_eq,
  if◌then◌else◌, starts_with, ◌⧺◌,
}
use Prim.Native.Char.{code}
use kakesu.Js.{Value, prop}
use kakesu.Js.Trim.{is_space}
use kakesu.Result.{Result, ok, throw, ◌>>=◌, ◌>>◌, throw_if}
use kakesu.Work.Texts.{strip}
use kakesu.Work.Node.{Node, is_zero}
use kakesu.Work.Documents.{front_matter, parse_frontmatter}
use kakesu.Check.Values.{is}

-- A line end of ECMAScript.
abbrev pub is_line_end : ℕ → Bool
is_line_end c = nat_eq c 10 || nat_eq c 13 || nat_eq c 8232 || nat_eq c 8233

unfoldable pub line_rest : String → String
line_rest String.[] = ""
line_rest (String.◌∷◌ c s) = if is_line_end (code c) then String.◌∷◌ c s else line_rest s

-- /^\s*.+$/ on what follows the key: the white space that is kept, and what follows the value. The
-- white space is as long as it can be, so that the value is blank only where no other can be found.
unfoldable pub status_value : String → Option (String × String)
status_value String.[] = none
status_value (String.◌∷◌ c s) = elim (is_space (code c)) [
  | false ↦ some ("", line_rest s)
  | true ↦ elim (status_value s) [
    | some (kept, rest) ↦ some (String.◌∷◌ c kept, rest)
    | none ↦ if is_line_end (code c) then none else some ("", line_rest s)
  ]
]

abbrev status_line : String → Option String
status_line s = elim (strip "status:" s) [
  | none ↦ none
  | some text ↦ elim (status_value text) [
    | none ↦ none
    | some (kept, rest) ↦ some ("status:" ⧺ (kept ⧺ ("<STATUS>" ⧺ rest)))
  ]
]

-- Whether a line starts here is carried along.
unfoldable pub normalize_from : Bool → String → String
normalize_from starts String.[] = ""
normalize_from starts (String.◌∷◌ c s) =
    let rest = String.◌∷◌ c (normalize_from (is_line_end (code c)) s) in
    if starts
    then (elim (status_line (String.◌∷◌ c s)) [ some masked ↦ masked | none ↦ rest ])
    else rest

-- `normalizeStatus`
abbrev pub normalize_status : String → String
normalize_status = normalize_from true

-- `s.endsWith(".md")`
unfoldable pub ends_with : String → String → Bool
ends_with t String.[] = t == ""
ends_with t (String.◌∷◌ c s) = String.◌∷◌ c s == t || ends_with t s

abbrev pub is_decision : String → Bool
is_decision file = starts_with file "wiki/decisions/" && ends_with ".md" file

module _ (node : Node) where
  -- The front matter of the temporary copy of HEAD's text.
  abbrev pub old_metadata : String → Result Value
  old_metadata content = elim (front_matter content) [
    | none ↦ throw "missing YAML frontmatter"
    | some text ↦ node.parse_yaml text
  ]

  -- The decision `before` of HEAD may become what is in the working tree.
  unfoldable pub check_change : String → String → String → Result (Unit {0})
  check_change root file before = do
    metadata ← old_metadata before
    let place = node.path_join root file
    throw_if (not (node.exists place)) (file ⧺ ": existing Decision cannot be deleted")
    current ← node.read_text place
    if is "superseded" (prop "status" metadata)
        then throw_if (not (before == current)) (file ⧺ ": superseded Decision is immutable")
        else (do
          throw_if (not (normalize_status before == normalize_status current))
              (file ⧺ ": accepted Decision content is immutable; only status may change")
          after ← parse_frontmatter node place
          throw_if (not (is "superseded" (prop "status" after)))
              (file ⧺ ": an accepted Decision may only transition to superseded"))

  -- The loop over the staged decisions; those that HEAD does not have are new.
  unfoldable pub check_staged_decisions : String → List String → Result (Unit {0})
  check_staged_decisions root [] = ok tt
  check_staged_decisions root (file ∷ files) =
      let rest = check_staged_decisions root files in
      let old = node.spawn root "git" ("show" ∷ ("HEAD:" ⧺ file) ∷ []) in
      if is_decision file && is_zero old.status
      then (do check_change root file old.stdout; rest)
      else rest
