-- ===== src/Checkpoint.antt =====
-- backend/session-manager/src/store/checkpoint-merge.ts and window-evaluations.ts: the monotonic
-- merge of a runtime checkpoint into a stored session.
pub mod Keyed
pub mod Rankings
pub mod Reactions
pub mod Windows
pub mod Merge
pub mod Samples
mod Tests
