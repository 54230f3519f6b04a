-- ===== src/Shared.antt =====
-- packages/shared: the types that the services exchange, and their small helpers.
pub mod Timestamp
pub mod Interventions
pub mod Models
pub mod Dto
pub mod Number
pub mod Config
pub mod Words
pub mod Tasks
pub mod Identity
pub mod FixedPoint
