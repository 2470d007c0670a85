-- ===== src/Work/Digest.antt =====
-- `changedContentDigest` of scripts/task/lib.mjs: one digest for the changed files as they stand in
-- the index, or as they stand in the working tree. The bytes of a file are a text.
pub mod Laws
pub mod Tests
use kakesu.Prelude.{String, Bool, ◌&&◌, Option, none, some, List, [], ◌∷◌, ◌++◌, if◌then◌else◌, ◌⧺◌}
use Prim.Native.Char.{nul}
use kakesu.Js.Trim.{trim}
use kakesu.Result.{Result, ok, throw, ◌>>=◌}
use kakesu.Work.Texts.{split, nonempty}
use kakesu.Work.Node.{Node, Spawned, is_zero}
use kakesu.Lifecycle.Steps.{sorted, distinct}

-- A changed file, with nothing where it was deleted.
pub record ChangedFile : Type 0 where
  pub file : String
  pub content : Option String

abbrev pub zero_byte : String
zero_byte = String.◌∷◌ nul String.[]

-- What `records.push` adds for a file.
abbrev pub record_of : ChangedFile → String
record_of c = elim c.content [
  | some text ↦ c.file ⧺ (zero_byte ⧺ ("present" ⧺ (zero_byte ⧺ (text ⧺ "\n"))))
  | none ↦ c.file ⧺ (zero_byte ⧺ ("deleted" ⧺ (zero_byte ⧺ ("DELETED" ⧺ "\n"))))
]

-- `Buffer.concat(records)`
unfoldable pub records_of : List ChangedFile → String
records_of [] = ""
records_of (c ∷ cs) = record_of c ⧺ records_of cs

abbrev parse_listing : Spawned → Result (List String)
parse_listing r = elim r.error [
  | some e ↦ throw e
  | none ↦ if is_zero r.status then ok (nonempty (split 0 r.stdout)) else throw (trim r.stderr)
]

module _ (node : Node) where
  -- `run`; a buffer is truthy, so that a failure tells what git wrote to stderr, be it nothing.
  abbrev pub paths : String → List String → Result (List String)
  paths root args = parse_listing (node.spawn root "git" args)

  abbrev staged_paths : String → Result (List String)
  staged_paths root =
      paths root ("diff" ∷ "--cached" ∷ "--name-only" ∷ "-z" ∷ "--diff-filter=ACMRD" ∷ [])

  abbrev worked_paths : String → Result (List String)
  worked_paths root = do
    tracked ← paths root ("diff" ∷ "HEAD" ∷ "--name-only" ∷ "-z" ∷ "--diff-filter=ACMRD" ∷ [])
    others ← paths root ("ls-files" ∷ "--others" ∷ "--exclude-standard" ∷ "-z" ∷ [])
    ok (distinct (tracked ++ others))

  unfoldable pub listing : String → Bool → Result (List String)
  listing root cached = if cached then staged_paths root else worked_paths root

  abbrev staged_content : String → String → Result (Option String)
  staged_content root file =
      let shown = node.spawn root "git" ("show" ∷ (":" ⧺ file) ∷ []) in
      if is_zero shown.status then ok (some shown.stdout) else ok none

  abbrev worked_content : String → String → Result (Option String)
  worked_content root file =
      let target = node.resolve root file in
      if node.exists target && node.is_file target
      then (do text ← node.read_text target; ok (some text))
      else ok none

  unfoldable pub content_of : String → Bool → String → Result (Option String)
  content_of root cached file =
      if cached then staged_content root file else worked_content root file

  unfoldable pub changes : String → Bool → List String → Result (List ChangedFile)
  changes root cached [] = ok []
  changes root cached (f ∷ fs) =
      let rest = changes root cached fs in
      (do
        content ← content_of root cached f
        later ← rest
        ok (record { file = f; content = content } ∷ later))

  module _ (sha256 : String → String) where
    unfoldable pub changed_content_digest : String → Bool → Result String
    changed_content_digest root cached = do
      files ← listing root cached
      found ← changes root cached (sorted files)
      ok (sha256 (records_of found))
