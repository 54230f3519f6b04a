-- ===== src/Sessions.antt =====
-- backend/session-manager/src/sessions: the journey of the participants and the life of a session,
-- on the store of sessions and the store of participations.
pub mod State
pub mod Sweep
pub mod Assignment
pub mod Matchmaking
pub mod Leaving
pub mod Disconnection
pub mod Completion
pub mod Provisioning
pub mod Run
mod Tests
