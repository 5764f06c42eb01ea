-- ===== src/Execution/Service/Reserve/Decide.antt =====
-- What `reserveOperationBudget` of src/execution/execution.service.ts decides.
use documents_backend.Common.{
  ℕ, ◌+◌, ltb, leb, String, Bool, true, false, not, ◌&&◌, Option, none, some, List, eq_nat,
  eq_string, get_or, is_some, is_true, or_else, if◌then◌else◌,
}
use documents_backend.Execution.Types.{
  OperationKind, inference, tool_call, Bucket, normal, tool, eq_bucket, BudgetUsage, GrantState,
  GuardSignal, GuardState,
}
use documents_backend.Execution.Events.{Row}
use documents_backend.Execution.Progress.BudgetEvents.{usage_of}
use documents_backend.Execution.Budget.ReservationRequests.{ReservationRequest}
use documents_backend.Execution.RepeatGuard.{warning_signal}
use documents_backend.Execution.RepeatGuard.Block.{block_signal, terminate_signal}

-- What is decided about a new operation.
pub record Decision : Type 0 where
  pub granted : Bool
  pub committed : ℕ
  pub crosses_soft_limit : Bool
  pub terminated : Option GuardSignal
  pub blocked : Option GuardSignal
  pub warned : Option GuardSignal

-- The two buckets that have a soft limit.
abbrev has_soft_limit : OperationKind → Bucket → Bool
has_soft_limit tool_call tool = true
has_soft_limit inference normal = true
has_soft_limit _ _ = false

-- `crossesSoftLimit`, of an operation that is granted.
unfoldable pub crosses : OperationKind → Bucket → BudgetUsage → ℕ → Bool
crosses kind bucket u committed =
    has_soft_limit kind bucket
    && ltb 0 (get_or u.soft_limit 0)
    && not (is_true u.soft_limit_reached)
    && leb (get_or u.soft_limit 0) committed

unfoldable pub decide : List Row → ReservationRequest → GrantState → GuardState → String → Decision
decide rows r g guard now =
    let p = g.grant.effective_policy in
    let u = usage_of r.bucket g.usage in
    let has_budget = ltb 0 u.available in
    let terminated =
      if has_budget && is_true p.exact_tool_repeat_terminate_after_block
      then terminate_signal rows r guard now
      else none in
    let blocked =
      if has_budget && not (is_some terminated) && is_true p.exact_tool_repeat_block_after_warning
      then block_signal rows r guard now
      else none in
    let granted = has_budget && not (is_some terminated) && not (is_some blocked) in
    let committed = u.reserved + u.consumed + (if granted then 1 else 0) in
    record {
      granted = granted;
      committed = committed;
      crosses_soft_limit = granted && crosses r.operation_kind r.bucket u committed;
      terminated = terminated;
      blocked = blocked;
      warned =
          if granted && is_true p.exact_tool_repeat_warning
          then warning_signal rows r guard now
          else none;
    }

abbrev pub guard_signal : Decision → Option GuardSignal
guard_signal d = or_else d.terminated (or_else d.blocked d.warned)

abbrev pub denied_reason : Decision → Option String
denied_reason d =
    if is_some d.terminated
    then some "immediate_exact_tool_repeat_terminated"
    else if is_some d.blocked
    then some "immediate_exact_tool_repeat_blocked"
    else none
