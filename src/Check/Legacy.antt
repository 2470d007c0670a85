-- ===== src/Check/Legacy.antt =====
-- `hasLegacyCompletionBinding`, `parseFrontmatterText` and `committedLegacyCompletionBinding` of
-- scripts/task/check-task.mjs: evidence from before candidate commits.
use kakesu.Prelude.{
  String, Bool, false, ◌||◌, not, Option, none, some, List, [], ◌∷◌, any, if◌then◌else◌,
  starts_with, ◌⧺◌, ◌==◌,
}
use kakesu.Js.{Value, prop, to_text, truthy}
use kakesu.Result.{Result, ok, throw, ◌>>=◌}
use kakesu.Work.Texts.{strip, until}
use kakesu.Work.Node.{Node, git}
use kakesu.Work.Documents.{find_task}
use kakesu.Check.Values.{is_filled}

abbrev pub legacy_completion_fields : List String
legacy_completion_fields =
    "merged_commit" ∷ "reviewed_commit" ∷ "tested_commit" ∷ "candidate_tree" ∷ "managed_path_digest"
    ∷ "bootstrap_evidence_commit" ∷ "bootstrap_evidence_digest" ∷ "merge_tree" ∷ []

-- `hasLegacyCompletionBinding`
unfoldable pub has_legacy_completion_binding : Value → Value → Value → Value → Bool
has_legacy_completion_binding task review qa handover =
    any (λ entry. is_filled (prop "candidate_commit" entry)) (review ∷ qa ∷ [])
    || any (λ entry. any (λ field. is_filled (prop field entry)) legacy_completion_fields)
        (task ∷ review ∷ qa ∷ handover ∷ [])

-- /\n---(?:\n|$)/
abbrev closes_text : String → Bool
closes_text t = starts_with t "\n---\n" || t == "\n---"

-- /^---\n([\s\S]*?)\n---(?:\n|$)/
unfoldable pub front_matter_text : String → Option String
unfolding strip until
front_matter_text content = elim (strip "---\n" content) [
  | none ↦ none
  | some s ↦ until closes_text s
]

module _ (node : Node) where
  abbrev parse_frontmatter_text : String → Result Value
  parse_frontmatter_text content = elim (front_matter_text content) [
    | none ↦ throw "missing YAML frontmatter"
    | some text ↦ node.parse_yaml text
  ]

  abbrev committed_evidence : String → Value → String → Result Value
  committed_evidence root task file = do
    content ← git node root ("show" ∷ ("HEAD:" ⧺ to_text (prop "task_dir" task) ⧺ "/" ⧺ file) ∷ [])
    parse_frontmatter_text content

  -- The body of the `try`.
  unfoldable pub committed_binding : String → String → Result Bool
  unfolding has_legacy_completion_binding
  committed_binding root id = do
    inside ← git node root ("rev-parse" ∷ "--is-inside-work-tree" ∷ [])
    if not (inside == "true") then ok false else (do
      text ← git node root ("show" ∷ "HEAD:backlog.yaml" ∷ [])
      backlog ← node.parse_yaml text
      task ← find_task backlog id
      if not (truthy task) then ok false else (do
        review ← committed_evidence root task "REVIEW_RESULT.md"
        qa ← committed_evidence root task "QA_RESULT.md"
        handover ← committed_evidence root task "HANDOVER.md"
        ok (has_legacy_completion_binding task review qa handover)))

  abbrev or_false : Result Bool → Bool
  or_false (ok b) = b
  or_false (throw _) = false

  -- `committedLegacyCompletionBinding`
  abbrev pub committed_legacy_completion_binding : String → String → Bool
  committed_legacy_completion_binding root id = or_false (committed_binding root id)
