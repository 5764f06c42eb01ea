-- ===== src/Execution/Service.antt =====
-- The transactions of src/execution/execution.service.ts.
pub mod Store
pub mod Grants
pub mod Reserve
pub mod Outcomes
pub mod Matching
pub mod Kept
pub mod Repeat
pub mod Retry
pub mod Decisions
