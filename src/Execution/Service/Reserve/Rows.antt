-- ===== src/Execution/Service/Reserve/Rows.antt =====
-- The rows of a decision of `reserveOperationBudget` (src/execution/execution.service.ts).
use documents_backend.Common.{
  ℕ, ◌+◌, ◌-◌, Option, none, some, List, [], ◌∷◌, ◌++◌, eq_nat, eq_string, get_or,
}
use documents_backend.Execution.Types.{
  eq_bucket, BudgetUsage, Reservation, SoftLimitSignal, GuardSignal,
}
use documents_backend.Execution.Events.{
  budget_soft_limit_reached, loop_guard_triggered, budget_reservation, Row,
}
use documents_backend.Execution.Entity.{Execution}
use documents_backend.Execution.Budget.ReservationRequests.{ReservationRequest}
use documents_backend.Execution.Budget.Checks.{create_reservation}
use documents_backend.Execution.Service.Store.{Fresh, empty_payload, backend_row}
use documents_backend.Execution.Service.Reserve.Decide.{Decision, denied_reason}

unfoldable pub decided_reservation : Fresh → ReservationRequest → Decision → Reservation
decided_reservation fresh r d =
    create_reservation r d.granted fresh.decision_id fresh.now (denied_reason d)

unfoldable pub soft_limit_signal : Fresh → ReservationRequest → BudgetUsage → ℕ → SoftLimitSignal
soft_limit_signal fresh r u committed = record {
  grant_id = r.grant_id;
  operation_kind = r.operation_kind;
  bucket = r.bucket;
  soft_limit = get_or u.soft_limit 0;
  hard_limit = u.granted;
  committed = committed;
  available = u.granted - committed;
  triggering_operation_id = r.operation_id;
  execution_attempt_id = r.execution_attempt_id;
  decided_at = fresh.now;
}

-- The rows of a decision, numbered on from `producer_sequence` and `sequence`.
unfoldable pub reservation_row : Fresh → ℕ → ℕ → Execution → Reservation → Row
reservation_row fresh producer_sequence sequence x v =
    backend_row fresh.event_id producer_sequence sequence x.last_event_id
      (record empty_payload { kind = budget_reservation; reservation = some v })

unfoldable pub soft_limit_rows : Fresh → ℕ → ℕ → Option SoftLimitSignal → List Row
soft_limit_rows fresh producer_sequence sequence none = []
soft_limit_rows fresh producer_sequence sequence (some signal) =
    backend_row fresh.soft_limit_event_id producer_sequence sequence (some fresh.event_id)
      (record empty_payload { kind = budget_soft_limit_reached; signal = some signal })
    ∷ []

unfoldable pub guard_rows : Fresh → ℕ → ℕ → Option GuardSignal → List Row
guard_rows fresh producer_sequence sequence none = []
guard_rows fresh producer_sequence sequence (some signal) =
    backend_row fresh.guard_event_id producer_sequence sequence (some fresh.event_id)
      (record empty_payload { kind = loop_guard_triggered; loop_guard_signal = some signal })
    ∷ []

abbrev pub one_if {ℓ} : {A : Type ℓ} → Option A → ℕ
one_if none = 0
one_if (some _) = 1

unfoldable pub decision_rows :
    Fresh → ℕ → Execution → Reservation → Option SoftLimitSignal → Option GuardSignal → List Row
unfolding reservation_row soft_limit_rows guard_rows
decision_rows fresh ps x v soft guard =
    reservation_row fresh ps (x.last_sequence + 1) x v
      ∷ soft_limit_rows fresh (ps + 1) (x.last_sequence + 2) soft
    ++ guard_rows fresh (ps + 1 + one_if soft) (x.last_sequence + 2 + one_if soft) guard
