-- ===== src/Store.antt =====
-- backend/session-manager/src/store: the store of sessions, rounds and conditions in memory.
pub mod State
pub mod Conditions
pub mod Shuffle
pub mod Forming
pub mod Rounds
pub mod Lookup
pub mod Seats
pub mod Lifecycle
pub mod Settings
pub mod Life
mod Tests
