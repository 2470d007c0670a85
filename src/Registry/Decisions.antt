-- ===== src/Registry/Decisions.antt =====
-- The checks of scripts/task/validate-work.mjs on the pages of the wiki and its decisions. The pages
-- are those of the wiki's index; ajv's verdict on a document is a parameter.
use kakesu.Prelude.{
  String, Bool, false, ◌||◌, ◌&&◌, not, Option, none, some, List, [], ◌∷◌, any, ◌⧺◌, starts_with,
  if◌then◌else◌,
}
use kakesu.Js.{Value, str, arr, items, prop, to_text, truthy, strict_eq}
use kakesu.Work.Texts.{shaped, includes}
use kakesu.Work.Node.{Node}
use kakesu.Work.Documents.{parse_frontmatter}
use kakesu.Check.Findings.{Check, ◌>>=◌, ◌>>◌, pure, lift, reports, report_all, each}
use kakesu.Check.Values.{is, one_of, text_or_empty, about}
use kakesu.Registry.Entries.{has, listed}

-- A page of the index.
pub record Page : Type 0 where
  pub path : String
  pub kind : Value
  pub title : Value
  pub decision_id : Value
  pub status : Value

-- The front matter of a decision, with its path.
pub record Decision : Type 0 where
  pub metadata : Value
  pub path : String

abbrev pub id_of : Decision → Value
id_of d = prop "decision_id" d.metadata

abbrev pub status_of : Decision → Value
status_of d = prop "status" d.metadata

abbrev semantic_kinds : List String
semantic_kinds = "concept" ∷ "schema" ∷ "script" ∷ "case-pattern" ∷ []

abbrev page_reports : Page → List (Bool × String)
page_reports page =
    (not (truthy page.title), about page.path "title is required")
    ∷ (
      starts_with page.path "wiki/semantic/" && not (one_of semantic_kinds page.kind),
      about page.path ("invalid semantic kind " ⧺ to_text page.kind),
    )
    ∷ []

unfoldable pub decision_reports : List Value → Page → List (Bool × String)
decision_reports seen page =
    (
      not (is "decision" page.kind)
          || not (shaped "DECISION-####" (text_or_empty page.decision_id)),
      about page.path "invalid Decision metadata",
    )
    ∷ (
      not (one_of ("accepted" ∷ "superseded" ∷ []) page.status),
      about page.path "Decision status must be accepted or superseded",
    )
    ∷ (
      has seen page.decision_id,
      about page.path ("duplicate Decision ID " ⧺ to_text page.decision_id),
    )
    ∷ []

-- `decisionById.get(id)?.status`: the map holds the last decision of an id.
unfoldable pub status_by_id : List Decision → Value → Option Value
status_by_id [] id = none
status_by_id (d ∷ ds) id =
    let later = status_by_id ds id in
    elim later [
      | some s ↦ some s
      | none ↦ if strict_eq (id_of d) id then some (status_of d) else none
    ]

abbrev pub is_superseded : Option Value → Bool
is_superseded (some s) = is "superseded" s
is_superseded none = false

-- The body of the loop over what a decision supersedes.
unfoldable pub supersession_reports :
    List Value → List Decision → Decision → List Value → List (Bool × String)
supersession_reports ids all_decisions d [] = []
supersession_reports ids all_decisions d (s ∷ ss) =
    (strict_eq s (id_of d), about d.path "Decision cannot supersede itself")
    ∷ (not (has ids s), about d.path ("unknown supersedes Decision " ⧺ to_text s))
    ∷ (
      is "accepted" (status_of d) && not (is_superseded (status_by_id all_decisions s)),
      about d.path ("superseded Decision " ⧺ to_text s ⧺ " must have status superseded"),
    )
    ∷ supersession_reports ids all_decisions d ss

-- `candidate.supersedes?.includes(id)`; other values have ended the loop before.
unfoldable pub supersedes : Decision → Value → Bool
supersedes d id = elim (prop "supersedes" d.metadata) [
  | arr vs ↦ any (λ v. strict_eq v id) (items vs)
  | str s ↦ includes (to_text id) s
  | _ ↦ false
]

abbrev pub is_successor : Decision → Decision → Bool
is_successor d candidate = is "accepted" (status_of candidate) && supersedes candidate (id_of d)

abbrev pub successor_reports : List Decision → Decision → List (Bool × String)
successor_reports all_decisions d =
    (
      is "superseded" (status_of d) && not (any (is_successor d) all_decisions),
      about d.path "superseded Decision requires an accepted successor",
    )
    ∷ []

module _ (node : Node) (root : String) (schema_issues : String → Value → String → List String) where
  -- The loop over the pages: the ids so far, and the decisions.
  unfoldable pub check_pages : List Value → List Page → Check (List Value × List Decision)
  check_pages seen [] = pure (seen, [])
  check_pages seen (page ∷ pages) = do
    reports (page_reports page)
    if starts_with page.path "wiki/decisions/"
        then (do
          metadata ← lift (parse_frontmatter node (node.path_join root page.path))
          report_all (schema_issues "decision.schema.json" metadata page.path)
          reports (decision_reports seen page)
          (ids, rest) ← check_pages (page.decision_id ∷ seen) pages
          pure (ids, record { metadata = metadata; path = page.path } ∷ rest))
        else check_pages seen pages

  unfoldable pub check_supersession : List Value → List Decision → Decision → Check (Unit {0})
  check_supersession ids all_decisions d = do
    superseded ← lift (listed (prop "supersedes" d.metadata))
    reports (supersession_reports ids all_decisions d superseded)

  unfoldable pub check_decisions : List Page → Check (List Decision)
  check_decisions pages = do
    (ids, decisions) ← check_pages [] pages
    each (check_supersession ids decisions) decisions
    each (λ d. reports (successor_reports decisions d)) decisions
    pure decisions
