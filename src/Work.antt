-- ===== src/Work.antt =====
-- scripts/task/lib.mjs, the library that the task scripts share.
pub mod Texts
pub mod Node
pub mod Documents
pub mod Digest
pub mod Lock
