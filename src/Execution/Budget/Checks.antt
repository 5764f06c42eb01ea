-- ===== src/Execution/Budget/Checks.antt =====
-- The guards of the budget operations: the `assert…` functions of
-- src/execution/inference-budget-policy.ts up to `assertBucketMatchesOperation`, and
-- `withoutGrantUsage` and `createOperationBudgetReservation`.
use documents_backend.Common.{
  String, Bool, true, false, not, ◌&&◌, ◌||◌, Option, none, some, ◌==◌, ◌!=◌, eq_nat, eq_string,
  eq_option, get_or, is_some, truthy, if◌then◌else◌, Result, bad_request, conflict, throw_if,
}
use documents_backend.Execution.Types.{
  OperationKind, inference, tool_call, Bucket, normal, repair, closing, tool, eq_kind, eq_bucket,
  reserved, denied, GrantPolicy, Grant, Reservation,
}
use documents_backend.Execution.Entity.{Execution, running, eq_status, is_chat}
use documents_backend.Execution.Budget.Requests.{GrantRequest}
use documents_backend.Execution.Budget.ReservationRequests.{ReservationRequest}

unfoldable pub assert_active_attempt : Execution → String → Result (Unit {0})
assert_active_attempt x attempt_id =
    throw_if (x.status != running || not (truthy x.attempt_id) || x.attempt_id != some attempt_id)
      (conflict "Execution attempt is not active")

unfoldable pub assert_grant_scope : Execution → GrantRequest → Result (Unit {0})
unfolding is_chat
assert_grant_scope x r =
    if not (is_chat x.task_type)
    then throw_if true (bad_request "Progress grants are only available for chat executions")
    else throw_if
        (r.execution_id != x.execution_id
          || r.loop_id != x.execution_id
          || some r.turn_id != x.turn_id)
        (bad_request "Grant identity is outside execution scope")

-- Fields that older grants lack are given their defaults.
unfoldable pub with_defaults : GrantPolicy → GrantPolicy
with_defaults p = record p {
  normal_inference_soft_limit = some (get_or p.normal_inference_soft_limit 0);
  tool_call_soft_limit = some (get_or p.tool_call_soft_limit 0);
  exact_tool_repeat_warning = some (get_or p.exact_tool_repeat_warning false);
  exact_tool_repeat_block_after_warning =
      some (get_or p.exact_tool_repeat_block_after_warning false);
  exact_tool_repeat_terminate_after_block =
      some (get_or p.exact_tool_repeat_terminate_after_block false);
}

unfoldable pub without_grant_usage : Grant → Grant
unfolding with_defaults
without_grant_usage g = record g {
  requested_policy = with_defaults g.requested_policy;
  effective_policy = with_defaults g.effective_policy;
}

unfoldable pub assert_reservation_scope : Execution → ReservationRequest → Result (Unit {0})
assert_reservation_scope x r =
    throw_if (r.execution_id != x.execution_id || r.loop_id != x.execution_id)
      (bad_request "Reservation identity is outside execution scope")

-- The reservation was made for this request.
unfoldable pub reservation_matches : Reservation → ReservationRequest → Bool
reservation_matches v r =
    v.grant_id == r.grant_id
    && v.operation_id == r.operation_id
    && v.execution_attempt_id == r.execution_attempt_id
    && v.operation_kind == some r.operation_kind
    && v.bucket == r.bucket
    && v.tool_call_id == r.tool_call_id
    && v.phase == r.phase
    && v.round == r.round
    && v.name == r.name
    && v.operation_fingerprint == r.operation_fingerprint
    && v.operation_fingerprint_version == r.operation_fingerprint_version
    && v.tool_batch_size == r.tool_batch_size
    && v.tool_batch_index == r.tool_batch_index

unfoldable pub assert_reservation_matches : Reservation → ReservationRequest → Result (Unit {0})
unfolding reservation_matches
assert_reservation_matches v r =
    throw_if (not (reservation_matches v r))
      (conflict "operationId already belongs to another budget reservation")

-- `INFERENCE_BUCKET_BY_PHASE[phase]`.
unfoldable pub bucket_by_phase : String → Option Bucket
bucket_by_phase phase =
    if phase == "direct_response" || phase == "agent_loop"
    then some normal
    else if phase == "output_repair"
    then some repair
    else if phase == "forced_finalization"
    then some closing
    else none

-- `TOOL_BUDGET_PHASES.has(phase)`.
unfoldable pub is_tool_phase : String → Bool
is_tool_phase phase = phase == "agent_loop" || phase == "output_repair"

abbrev pub is_tool_call : OperationKind → Bool
is_tool_call tool_call = true
is_tool_call inference = false

expected_bucket : OperationKind → String → Option Bucket
unfolding bucket_by_phase
expected_bucket tool_call phase = some tool
expected_bucket inference phase = bucket_by_phase phase

unfoldable pub assert_bucket : OperationKind → Bucket → String → Result (Unit {0})
unfolding expected_bucket is_tool_phase
assert_bucket kind bucket phase =
    throw_if
      (expected_bucket kind phase != some bucket || is_tool_call kind && not (is_tool_phase phase))
      (bad_request "Budget bucket cannot be used for this operation in this phase")

-- `x ? { x } : {}`.
abbrev pub non_empty : Option String → Option String
non_empty o = if truthy o then o else none

denial_of : OperationKind → String
denial_of tool_call = "tool_budget_hard_limit_reached"
denial_of inference = "budget_hard_limit_reached"

-- The identifier and the time of the decision are the caller's.
unfoldable pub create_reservation :
    ReservationRequest → Bool → String → String → Option String → Reservation
unfolding denial_of
create_reservation r granted reservation_id decided_at denied_reason = record {
  reservation_id = reservation_id;
  grant_id = r.grant_id;
  operation_id = r.operation_id;
  execution_attempt_id = r.execution_attempt_id;
  operation_kind = some r.operation_kind;
  bucket = r.bucket;
  tool_call_id = non_empty r.tool_call_id;
  operation_fingerprint = non_empty r.operation_fingerprint;
  operation_fingerprint_version =
      if truthy r.operation_fingerprint then r.operation_fingerprint_version else none;
  tool_batch_size = r.tool_batch_size;
  tool_batch_index = if is_some r.tool_batch_size then r.tool_batch_index else none;
  phase = r.phase;
  round = r.round;
  name = r.name;
  status = if granted then reserved else denied;
  reason = if granted then none else some (get_or denied_reason (denial_of r.operation_kind));
  decided_at = decided_at;
}
