-- ===== src/Lifecycle/Steps/Requests.antt =====
-- The steps of the transactions leave the lock alone, and some of them change nothing.
use kakesu.Prelude.{String, List, [], ◌∷◌}
use kakesu.Js.{Value}
use kakesu.Work.Node.{Node}
use kakesu.Lifecycle.Script.{is_reading, is_lock}
use kakesu.Lifecycle.Script.Laws.{is_cleanup, Only, is_plain, is_push, requests, reading-plain}
use kakesu.Lifecycle.Steps.{
  changed_files, read_yaml, parse_frontmatter, task_context, rules_for, assert_main,
}
use kakesu.Lifecycle.Steps.Planning.{
  forbidden_files, validate_planning_state, recorded_worktree, fast_forward_planning_worktree,
}
use kakesu.Lifecycle.Steps.Validation.{
  has_schemas, resolve_operations_validation, validate_operations, validate_evidence_action,
}

pub changed_files-Only : (root : String) → Only is_reading (changed_files root)
unfolding changed_files is_reading
changed_files-Only root = search (requests)

module _ (node : Node) where
  pub read_yaml-Only : (file : String) → Only is_reading (read_yaml node file)
  unfolding read_yaml is_reading
  read_yaml-Only file = search (requests)

  pub parse_frontmatter-Only : (file : String) → Only is_reading (parse_frontmatter node file)
  unfolding parse_frontmatter is_reading
  parse_frontmatter-Only file = search (requests)

  pub task_context-Only : (root id : String) → Only is_reading (task_context node root id)
  unfolding task_context
  task_context-Only root id = search (requests, read_yaml-Only)

  pub rules_for-Only : (root action id : String) → Only is_reading (rules_for node root action id)
  unfolding rules_for is_reading
  rules_for-Only root action id = search (requests, task_context-Only) depth 20

  pub assert_main-Only : (root : String) → Only is_reading (assert_main node root)
  unfolding assert_main is_reading
  assert_main-Only root = search (requests) depth 30

  forbidden_files-Only :
      (root id : String) (files : List String)
      → Only is_reading (forbidden_files node root id files)
  unfolding forbidden_files
  forbidden_files-Only root id [] = search (requests)
  forbidden_files-Only root id (file ∷ files) =
      search (requests, rules_for-Only, forbidden_files-Only root id files) depth 20

  pub validate_planning_state-Only :
      (root id : String) (changed : List String)
      → Only is_reading (validate_planning_state node root id changed)
  unfolding validate_planning_state
  validate_planning_state-Only root id changed =
      search (requests, task_context-Only, forbidden_files-Only, parse_frontmatter-Only) depth 40

  pub recorded_worktree-Only :
      (root id : String) (task : Value) → Only is_reading (recorded_worktree node root id task)
  unfolding recorded_worktree is_reading
  recorded_worktree-Only root id task = search (requests) depth 30

  pub fast_forward_planning_worktree-Only :
      (root id commit : String) → Only is_plain (fast_forward_planning_worktree node root id commit)
  unfolding fast_forward_planning_worktree is_lock is_cleanup is_push
  fast_forward_planning_worktree-Only root id commit =
      search (requests, reading-plain, task_context-Only, recorded_worktree-Only) depth 30

  has_schemas-Only :
      (root : String) (names : List String) → Only is_reading (has_schemas node root names)
  unfolding has_schemas is_reading
  has_schemas-Only root [] = search (requests)
  has_schemas-Only root (name ∷ names) = search (requests, has_schemas-Only root names) depth 20

  resolve_operations_validation-Only :
      (root action id candidate_root : String)
      → Only is_reading (resolve_operations_validation node root action id candidate_root)
  unfolding resolve_operations_validation is_reading
  resolve_operations_validation-Only root action id candidate_root =
      search (requests, has_schemas-Only, task_context-Only, parse_frontmatter-Only) depth 60 fits
        4000

  pub validate_operations-Only :
      (root action id candidate_root : String)
      → Only is_plain (validate_operations node root action id candidate_root)
  unfolding validate_operations is_lock is_cleanup is_push
  validate_operations-Only root action id candidate_root =
      search (requests, reading-plain, resolve_operations_validation-Only) depth 20

  pub validate_evidence_action-Only :
      (repo_root root action id candidate_root : String)
      → Only is_plain (validate_evidence_action node repo_root root action id candidate_root)
  unfolding validate_evidence_action is_lock is_cleanup is_push
  validate_evidence_action-Only repo_root root action id candidate_root =
      search (requests, validate_operations-Only) depth 20
