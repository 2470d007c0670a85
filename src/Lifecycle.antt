-- ===== src/Lifecycle.antt =====
-- scripts/task/unified-lifecycle.mjs: how the candidate of a task reaches main.
pub mod Script
pub mod Steps
pub mod Fixtures
pub mod Evidence
pub mod Freeze
pub mod Snapshot
pub mod Sparse
pub mod Composite
pub mod Sync
pub mod Completion
pub mod Repository
pub mod Candidate
