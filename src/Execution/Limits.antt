-- ===== src/Execution/Limits.antt =====
-- The hard limits of a grant are never exceeded: the invariant of the budget that the log projects
-- to, and its preservation by every operation that appends to the log.
pub mod Live
pub mod Budget
pub mod Steps
pub mod Log
pub mod Service
