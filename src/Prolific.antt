-- ===== src/Prolific.antt =====
-- backend/session-manager/src/prolific/prolific-actions.service.ts: the returns and bonus payments
-- that the platform asks of Prolific.
pub mod Api
pub mod Actions
pub mod Service
mod Tests
