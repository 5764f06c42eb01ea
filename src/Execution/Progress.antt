-- ===== src/Execution/Progress.antt =====
-- The progress ledger of an execution as a projection of its event log
-- (src/execution/execution-progress.ts).
pub mod Counters
pub mod BudgetEvents
pub mod Consume
pub mod Projection
pub mod Preserve
pub mod Totals
pub mod Starts
pub mod Conservation
