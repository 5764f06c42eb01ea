-- ===== src/Execution/Limits/Steps.antt =====
-- The invariant through the projection: every event keeps it, if a reservation event is one that
-- the budget had room for.
use documents_backend.Execution.Events.{Event}
use documents_backend.Execution.Progress.BudgetEvents.{ensure_budget}
use documents_backend.Execution.Progress.Projection.{Projection, step}
use documents_backend.Execution.Progress.Preserve.{Rules, IsAdmissible, step-Holds}
use documents_backend.Execution.Limits.Budget.{
  IsWithin, CanReserve, apply_grant-IsWithin, apply_soft_limit-IsWithin, apply_reservation-IsWithin,
  consume_in_budget-IsWithin,
}

IsWithin-rules : Rules IsWithin CanReserve
IsWithin-rules = record {
  grant = apply_grant-IsWithin;
  soft_limit = apply_soft_limit-IsWithin;
  reserve = apply_reservation-IsWithin;
  consume = consume_in_budget-IsWithin;
}

pub step-IsWithin :
    (s : Projection) (e : Event)
    → IsWithin (ensure_budget s.ledger)
    → IsAdmissible CanReserve s.ledger e
    → IsWithin (ensure_budget (step s e).ledger)
step-IsWithin = step-Holds IsWithin CanReserve IsWithin-rules
