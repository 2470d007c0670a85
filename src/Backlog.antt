-- ===== src/Backlog.antt =====
-- scripts/task/validate-work.mjs: the checks on `backlog.yaml`.
pub mod Cycle
