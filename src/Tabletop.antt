-- ===== src/Tabletop.antt =====
-- scripts/validate-tabletop-scenarios.mjs: the checks on the recorded scenarios, in which the
-- planes of the system exchange messages.
pub mod Sequence
