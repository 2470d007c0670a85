-- ===== src/PreCommit.antt =====
-- scripts/task/work-pre-commit.mjs, the hook that git runs before each commit of evidence or of a
-- candidate.
pub mod Context
pub mod Decisions
pub mod Hook
pub mod Laws
pub mod Evidence
pub mod Tests
