-- ===== src/Check.antt =====
-- scripts/task/check-task.mjs: what a task has to show in each of its phases.
pub mod Findings
pub mod Values
pub mod Contract
pub mod Legacy
pub mod Merges
pub mod Changes
pub mod Worktrees
pub mod Safety
pub mod Gates
pub mod Phases
pub mod Task
