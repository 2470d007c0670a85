-- ===== src/Lifecycle/Steps/Validation.antt =====
-- Which validator checks the operations in scripts/task/unified-lifecycle.mjs:
-- `resolveOperationsValidation`, `validateOperations` and `validateEvidenceAction`.
use kakesu.Prelude.{String, Bool, true, false, not, ◌||◌, List, [], ◌∷◌, ◌==◌, if◌then◌else◌, ◌⧺◌}
use kakesu.Js.{str, prop, to_text, strict_eq}
use kakesu.Result.{ok}
use kakesu.Work.Node.{Node}
use kakesu.Check.Values.{is, text_or_empty, is_sha}
use kakesu.Lifecycle.Script.{Script, ◌>>=◌, ◌>>◌, lift, guard}
use kakesu.Lifecycle.Steps.{
  git, run, file_exists, contains, task_context, task_dir, parse_frontmatter,
}

module _ (node : Node) where
  -- `hasOperationSchemas`
  unfoldable pub has_schemas : String → List String → Script Bool
  has_schemas root [] = lift (ok true)
  has_schemas root (name ∷ names) = do
    there ←
        file_exists
          (node.path_join (node.path_join root "schemas/operations") (name ⧺ ".schema.json"))
    if there then has_schemas root names else lift (ok false)

  abbrev operation_schemas : List String
  operation_schemas = "backlog" ∷ "decision" ∷ "ingestion-receipt" ∷ "bootstrap-manifest" ∷ []

  abbrev pre_merge_evidence_actions : List String
  pre_merge_evidence_actions = "handover" ∷ "review" ∷ "qa-result" ∷ []

  -- `resolveOperationsValidation`: the directory of the validator and of its schemas.
  unfoldable pub resolve_operations_validation : String → String → String → String → Script String
  resolve_operations_validation root action id candidate_root = do
    own ← has_schemas root operation_schemas
    if own then lift (ok root) else (do
      guard (not (contains action pre_merge_evidence_actions))
          ("main operations schemas are unavailable for " ⧺ action)
      complete ← has_schemas candidate_root operation_schemas
      guard (not complete) "candidate operations schemas are incomplete"
      task ← task_context node root id
      handover ←
          parse_frontmatter node
            (node.path_join (node.path_join root (task_dir node task)) "HANDOVER.md")
      candidate ← git candidate_root ("rev-parse" ∷ "HEAD" ∷ [])
      branch ← git candidate_root ("branch" ∷ "--show-current" ∷ [])
      guard (not (strict_eq (str branch) (prop "branch" task)))
          "validator must run from the recorded candidate branch"
      head ← git root ("rev-parse" ∷ to_text (prop "branch" task) ∷ [])
      guard (not (head == candidate)) "validator candidate differs from the recorded branch head"
      status ← git candidate_root ("status" ∷ "--porcelain" ∷ [])
      guard (not (status == "")) "validator candidate worktree must be clean"
      guard
          (not (is_sha (text_or_empty (prop "candidate_commit" handover)))
            || not (is candidate (prop "candidate_commit" handover)))
          "validator candidate is not bound by HANDOVER: candidate="
      lift (ok candidate_root))

  -- `validateOperations`
  unfoldable pub validate_operations : String → String → String → String → Script (Unit {0})
  validate_operations root action id candidate_root = do
    place ← resolve_operations_validation root action id candidate_root
    done ← run root "node" (
        node.path_join place "scripts/task/validate-work.mjs"
        ∷ "--work-root"
        ∷ root
        ∷ "--schema-root"
        ∷ place
        ∷ [])
    lift (ok tt)

  -- `validateEvidenceAction`
  unfoldable pub validate_evidence_action :
      String → String → String → String → String → Script (Unit {0})
  validate_evidence_action repo_root root action id candidate_root =
      if action == "bootstrap"
      then (do
        done ← run root "node" (
            node.path_join repo_root "scripts/task/migrate-operations.mjs"
            ∷ "--mode"
            ∷ "verify"
            ∷ "--target"
            ∷ root
            ∷ [])
        lift (ok tt))
      else validate_operations root action id candidate_root
