-- ===== src/Routing.antt =====
-- The agent routing of scripts/task/agent-routing.mjs.
pub mod Contracts
pub mod Selection
pub mod Delegation
pub mod Config
pub mod Patterns
pub mod Roles
