-- ===== src/Work/Documents.antt =====
-- `readYaml`, `parseFrontmatter`, `resolveInside`, `taskById`, `assertSlug` and `assertTaskId` of
-- scripts/task/lib.mjs, and `repositoryFor` of scripts/task/check-task.mjs.
use kakesu.Prelude.{
  String, Bool, true, false, ◌&&◌, ◌||◌, not, Option, none, some, List, [], ◌∷◌, ◌==◌, nat_eq,
  if◌then◌else◌, starts_with, ◌⧺◌, is_lower, is_digit,
}
use Prim.Native.Char.{code}
use kakesu.Js.{Value, str, undefined, null, arr, items, prop, strict_eq, to_text, truthy}
use kakesu.Result.{Result, ok, throw, ◌>>=◌, ◌>>◌, throw_if}
use kakesu.Scope.{is_task_id}
use kakesu.Work.Texts.{strip, until}
use kakesu.Work.Node.{Node}

-- /^---\n([\s\S]*?)\n---\n/
unfoldable pub front_matter : String → Option String
unfolding strip until
front_matter content = elim (strip "---\n" content) [
  | none ↦ none
  | some s ↦ until (λ t. starts_with t "\n---\n") s
]

-- A slug is read word by word: /[a-z0-9]+(?:-[a-z0-9]+)*/, `started` once the word has a letter.
unfoldable pub slug_from : Bool → String → Bool
slug_from started String.[] = started
slug_from started (String.◌∷◌ c s) =
    let in_word = slug_from true s in
    let next_word = slug_from false s in
    if is_lower (code c) || is_digit (code c)
    then in_word
    else if nat_eq (code c) b'-' && started
    then next_word
    else false

abbrev pub is_slug : String → Bool
is_slug = slug_from false

abbrev text_or_empty : Value → String
text_or_empty undefined = ""
text_or_empty null = ""
text_or_empty v = to_text v

-- `assertTaskId` and `assertSlug`
abbrev pub assert_task_id : Value → Result (Unit {0})
assert_task_id id = throw_if (not (is_task_id (text_or_empty id))) "Invalid task ID: "

abbrev pub assert_slug : Value → Result (Unit {0})
assert_slug slug = throw_if (not (is_slug (text_or_empty slug))) "Invalid slug: "

-- `v.k` throws where there is no value.
abbrev pub readable : Value → String → Result (Unit {0})
readable undefined k = throw ("Cannot read properties of undefined (reading '" ⧺ k ⧺ "')")
readable null k = throw ("Cannot read properties of null (reading '" ⧺ k ⧺ "')")
readable _ k = ok tt

-- `tasks.find((task) => task.id === id)`
unfoldable pub find_id : String → List Value → Result Value
find_id id [] = ok undefined
find_id id (t ∷ ts) =
    let rest = find_id id ts in
    (do readable t "id"; if strict_eq (prop "id" t) (str id) then ok t else rest)

-- `backlog.tasks?.find(…)`; what has no `find` throws.
abbrev pub find_task : Value → String → Result Value
find_task backlog id = elim (prop "tasks" backlog) [
  | arr tasks ↦ find_id id (items tasks)
  | undefined ↦ ok undefined
  | null ↦ ok undefined
  | _ ↦ throw "backlog.tasks?.find is not a function"
]

-- `taskById`
unfoldable pub task_by_id : Value → String → Result Value
task_by_id backlog id = do
  task ← find_task backlog id
  if truthy task then ok task else throw ("Task is not registered in backlog.yaml: " ⧺ id)

abbrev pub get_text : String → Value → Result String
get_text label (str s) = if s == "" then throw label else ok s
get_text label v = if truthy v then throw "path must be a string" else throw label

module _ (node : Node) where
  abbrev pub read_yaml : String → Result Value
  read_yaml file = do text ← node.read_text file; node.parse_yaml text

  unfoldable pub parse_frontmatter : String → Result Value
  parse_frontmatter file = do
    content ← node.read_text file
    elim (front_matter content) [
      | none ↦ throw "missing YAML frontmatter"
      | some text ↦ node.parse_yaml text
    ]

  -- `resolveInside`; its root is absolute, as the scripts' roots are.
  unfoldable pub resolve_inside : String → Value → String → Result String
  resolve_inside root relative label = do
    path ← get_text (label ⧺ " must be a non-empty relative path") relative
    throw_if (node.is_absolute path) (label ⧺ " must be a non-empty relative path")
    let resolved = node.resolve root path
    throw_if (not (resolved == root) && not (starts_with resolved (root ⧺ "/")))
        (label ⧺ " escapes the repository root: ")
    ok resolved
