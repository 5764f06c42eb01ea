-- ===== src/Execution/Budget.antt =====
-- The policy of operation budgets (src/execution/inference-budget-policy.ts).
pub mod Requests
pub mod ReservationRequests
pub mod Policy
pub mod Checks
pub mod Governed
pub mod Bounds
pub mod Used
pub mod SingleUse
