-- ===== src/Execution.antt =====
-- Durable executions (src/execution).
pub mod Types
pub mod Events
pub mod Entity
pub mod Progress
pub mod Budget
pub mod RepeatGuard
pub mod Service
pub mod Limits
pub mod Lifecycle
pub mod Ingest
mod Tests
