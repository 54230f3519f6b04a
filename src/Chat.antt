-- ===== src/Chat.antt =====
-- backend/chat-service: the live state of a session (sessions/session-runtime.ts) and the rules by
-- which the bot observes it and intervenes (rules/bot-rules.ts).
pub mod Runtime
pub mod Split
pub mod Window
pub mod Message
pub mod Classify
pub mod Evaluate
pub mod Elapse
mod Tests
