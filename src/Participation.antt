-- ===== src/Participation.antt =====
-- backend/session-manager: the Prolific participation journey. participation.ts holds its rules and
-- participation.store.ts its state, in memory (the branch without a database); sessions/
-- compensation.ts and participation-outcomes.ts say what an ending pays and where it leads.
pub mod Endings
pub mod Rules
pub mod Compensation
pub mod Outcomes
pub mod State
pub mod Store
pub mod Actions
pub mod Run
mod Tests
