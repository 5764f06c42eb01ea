-- ===== src/Execution/Service/Reserve.antt =====
-- `reserveOperationBudget` of src/execution/execution.service.ts.
mod Decide
mod Rows
unfoldable pub use Decide.*
unfoldable pub use Rows.*
use documents_backend.Common.{
  ℕ, ◌+◌, ◌-◌, ltb, leb, String, Bool, true, false, not, ◌&&◌, ◌||◌, Option, none, some, List, [],
  ◌∷◌, ◌++◌, find, ◌==◌, ◌!=◌, eq_nat, eq_string, get_or, is_some, is_true, or_else, if◌then◌else◌,
  Result, ok, err, bad_request, present, throw_if, ◌>>=◌, ◌>>◌,
}
use documents_backend.Common.Dict.{lookup}
use documents_backend.Execution.Types.{
  OperationKind, inference, tool_call, Bucket, normal, tool, eq_bucket, status_eq, reserved,
  consumed, BudgetUsage, Reservation, GrantState, SoftLimitSignal, GuardSignal, GuardState, Ledger,
}
use documents_backend.Execution.Events.{
  budget_soft_limit_reached, loop_guard_triggered, budget_reservation, Row,
}
use documents_backend.Execution.Entity.{Execution}
use documents_backend.Execution.Progress.BudgetEvents.{usage_of, ensure_budget}
use documents_backend.Execution.Progress.Consume.{guard_snapshot}
use documents_backend.Execution.Progress.Projection.{project}
use documents_backend.Execution.Budget.ReservationRequests.{
  RawReservationRequest, ReservationRequest, validate_reservation_request,
}
use documents_backend.Execution.Budget.Checks.{
  assert_active_attempt, assert_reservation_scope, assert_reservation_matches, assert_bucket,
  is_tool_call, create_reservation,
}
use documents_backend.Execution.RepeatGuard.{warning_signal}
use documents_backend.Execution.RepeatGuard.Block.{block_signal, terminate_signal}
use documents_backend.Execution.Service.Store.{
  Store, Fresh, find_root, save, next_producer_sequence, empty_payload, backend_row, envelopes,
  refresh, Snapshot, snapshot,
}

pub record ReserveReply : Type 0 where
  pub granted : Bool
  pub reservation : Reservation
  pub budget_state : Snapshot
  pub soft_limit_signal : Option SoftLimitSignal
  pub guard_state : GuardState
  pub loop_guard_signal : Option GuardSignal
  pub event_id : String

-- The rows that an earlier decision on this operation has left.
abbrev pub is_reservation_row : String → Row → Bool
is_reservation_row id row = elim row.envelope.payload.reservation [
  | none ↦ false
  | some v ↦ v.operation_id == id
]

abbrev pub is_soft_limit_row : String → Row → Bool
is_soft_limit_row id row = elim row.envelope.payload.signal [
  | none ↦ false
  | some v ↦ v.triggering_operation_id == id
]

abbrev pub is_guard_row : String → Row → Bool
is_guard_row id row = elim row.envelope.payload.loop_guard_signal [
  | none ↦ false
  | some v ↦ v.triggering_operation_id == id
]

abbrev signal_in : Option Row → Option SoftLimitSignal
signal_in none = none
signal_in (some row) = row.envelope.payload.signal

abbrev guard_signal_in : Option Row → Option GuardSignal
guard_signal_in none = none
guard_signal_in (some row) = row.envelope.payload.loop_guard_signal

abbrev pub row_id : Option Row → Option String
row_id none = none
row_id (some row) = some row.event_id

-- A reservation that was used is reported with the reason.
abbrev pub reported : Reservation → Reservation
reported v =
    if status_eq v.status consumed
    then record v { reason = some "budget_reservation_consumed" }
    else v

unfoldable pub repeat_reply :
    ReservationRequest → Store → Ledger → Reservation → GrantState → String → ReserveReply
repeat_reply r s l v g event_id = record {
  granted = status_eq v.status reserved;
  reservation = reported v;
  budget_state = snapshot g;
  soft_limit_signal = signal_in (find (is_soft_limit_row r.operation_id) s.rows);
  guard_state = guard_snapshot l v.grant_id;
  loop_guard_signal = guard_signal_in (find (is_guard_row r.operation_id) s.rows);
  event_id = event_id;
}

-- A repeated request gets the decision that was made before, and appends nothing.
unfoldable pub repeat_decision :
    ReservationRequest → Store → Ledger → Reservation → Result (ReserveReply × Store)
repeat_decision r s l v = do
  assert_reservation_matches v r
  g ← present (lookup v.grant_id (ensure_budget l).grants)
  event_id ← present (
      or_else (row_id (find (is_guard_row r.operation_id) s.rows)) (
        or_else (row_id (find (is_soft_limit_row r.operation_id) s.rows))
          (row_id (find (is_reservation_row r.operation_id) s.rows))))
  ok (repeat_reply r s l v g event_id, s)

-- The last event that was appended.
abbrev last_event : Fresh → Option SoftLimitSignal → Option GuardSignal → String
last_event fresh soft (some _) = fresh.guard_event_id
last_event fresh (some _) none = fresh.soft_limit_event_id
last_event fresh none none = fresh.event_id

unfoldable pub advanced :
    Fresh → List Row → Execution → Option SoftLimitSignal → Option GuardSignal → Execution
advanced fresh rows x soft guard = refresh rows (record x {
  last_sequence = x.last_sequence + 1 + one_if soft + one_if guard;
  last_event_id = some (last_event fresh soft guard);
})

unfoldable pub soft_signal_of :
    Fresh → ReservationRequest → GrantState → Decision → Option SoftLimitSignal
soft_signal_of fresh r g d =
    if d.crosses_soft_limit
    then some (soft_limit_signal fresh r (usage_of r.bucket g.usage) d.committed)
    else none

unfoldable pub rows_after :
    Fresh → Store → Execution → ReservationRequest → GrantState → Decision → List Row
rows_after fresh s x r g d =
    s.rows
    ++ decision_rows fresh (next_producer_sequence s.rows) x (decided_reservation fresh r d)
        (soft_signal_of fresh r g d) (guard_signal d)

-- The store after the decision, with the projection of its log.
unfoldable pub decision_store :
    Fresh → Store → Execution → ReservationRequest → GrantState → Decision → Store
decision_store fresh s x r g d =
    let rows = rows_after fresh s x r g d in
    record {
      executions =
          save (advanced fresh rows x (soft_signal_of fresh r g d) (guard_signal d)) s.executions;
      rows = rows;
    }

unfoldable pub decision_reply :
    Fresh → ReservationRequest → GrantState → Decision → Ledger → GrantState → ReserveReply
decision_reply fresh r g d l projected = record {
  granted = d.granted;
  reservation = decided_reservation fresh r d;
  budget_state = snapshot projected;
  soft_limit_signal = soft_signal_of fresh r g d;
  guard_state = guard_snapshot l g.grant.grant_id;
  loop_guard_signal = guard_signal d;
  event_id = last_event fresh (soft_signal_of fresh r g d) (guard_signal d);
}

unfoldable pub append_decision :
    Fresh
    → Store
    → Execution
    → ReservationRequest
    → GrantState
    → Decision
    → Result (ReserveReply × Store)
append_decision fresh s x r g d =
    let s' = decision_store fresh s x r g d in
    let ledger = (project (envelopes s'.rows)).ledger in
    present (lookup g.grant.grant_id (ensure_budget ledger).grants) >>= λ projected.
    ok (decision_reply fresh r g d ledger projected, s')

-- The checks on a new operation, and its decision.
unfoldable pub reserve_new :
    Fresh
    → ReservationRequest
    → Store
    → Execution
    → Ledger
    → Option GrantState
    → Result (ReserveReply × Store)
reserve_new fresh r s x l none = err (bad_request "Unknown operation budget grant")
reserve_new fresh r s x l (some g) = do
  throw_if (g.grant.loop_id != r.loop_id) (bad_request "Unknown operation budget grant")
  throw_if
      (is_tool_call r.operation_kind
        && is_true g.grant.effective_policy.exact_tool_repeat_terminate_after_block
        && (not (is_some r.tool_batch_size) || not (is_some r.tool_batch_index)))
      (bad_request "Tool batch identity is required by the active loop guard policy")
  assert_bucket r.operation_kind r.bucket r.phase
  append_decision fresh s x r g (decide s.rows r g (guard_snapshot l g.grant.grant_id) fresh.now)

unfoldable pub reserve_or_repeat :
    Fresh
    → ReservationRequest
    → Store
    → Execution
    → Ledger
    → Option Reservation
    → Result (ReserveReply × Store)
reserve_or_repeat fresh r s x l (some v) = repeat_decision r s l v
reserve_or_repeat fresh r s x l none =
    reserve_new fresh r s x l (lookup r.grant_id (ensure_budget l).grants)

-- The transaction after the request is validated.
unfoldable pub reserve : Fresh → String → ReservationRequest → Store → Result (ReserveReply × Store)
reserve fresh root r s = do
  x ← find_root root s.executions
  assert_active_attempt x r.execution_attempt_id
  assert_reservation_scope x r
  let l = (project (envelopes s.rows)).ledger
  reserve_or_repeat fresh r s x l (lookup r.operation_id (ensure_budget l).reservations)

unfoldable pub reserve_operation_budget :
    Fresh → String → RawReservationRequest → Store → Result (ReserveReply × Store)
reserve_operation_budget fresh root raw s = do
  r ← validate_reservation_request root raw
  reserve fresh root r s
