-- ===== src/Registry.antt =====
-- scripts/task/validate-work.mjs: the checks of the backlog and of the decisions.
pub mod Entries
pub mod Accepted
pub mod Decisions
pub mod Settled
mod Tests
