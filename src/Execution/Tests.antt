-- ===== src/Execution/Tests.antt =====
-- A chat execution with one grant of two normal inferences and one tool call, run by evaluation,
-- and the theorems at inputs from that run.
mod Log
mod Decisions
use documents_backend.Common.{
  ◌⊎◌, length, false, ◌≢◌, List, ◌++◌, ℕ, ◌+◌, ◌≤◌, String, true, ◌≡◌, refl, none, some, [], ◌∷◌,
  Result, ok,
}
use documents_backend.Common.Dict.{lookup, insert, adjust, insert_new}
use documents_backend.Common.Text.{is_uuid, is_content_hash, is_blank}
use documents_backend.Execution.Types.{inference, normal, Reservation, BudgetUsage, GrantState}
use documents_backend.Execution.Entity.{Execution, running, is_chat}
use documents_backend.Execution.Progress.BudgetEvents.{
  grant_state, apply_budget_event, apply_grant, apply_soft_limit, apply_reservation,
}
use documents_backend.Execution.Progress.Consume.{
  consume_budget_reservation, guard_snapshot, no_detections,
}
use documents_backend.Execution.Progress.Projection.{
  operation_key, project, initial, step, steps, on_event,
}
use documents_backend.Execution.Progress.Counters.{record_started, record_finished}
use documents_backend.Execution.Budget.Requests.{
  RequestedPolicy, nat, absent, flag, RawPolicy, RawGrantRequest, validate_progress_grant_request,
  check_uuids,
}
use documents_backend.Execution.Budget.ReservationRequests.{
  RawReservationRequest, ReservationRequest, validate_reservation_request, kind_of, bucket_of,
  has_basics, has_tool_identity, is_fingerprint, batch_ok, read_request,
}
use documents_backend.Execution.Budget.Policy.{resolve_effective_policy, create_grant}
use documents_backend.Execution.Budget.Checks.{
  assert_active_attempt, assert_grant_scope, without_grant_usage, assert_reservation_scope,
  assert_reservation_matches, assert_bucket, create_reservation,
}
use documents_backend.Execution.RepeatGuard.{warning_signal}
use documents_backend.Execution.RepeatGuard.Block.{block_signal, terminate_signal}
use documents_backend.Execution.Service.Store.{
  Store, Fresh, envelopes, empty_payload, find_root, save, next_producer_sequence, refresh,
  snapshot,
}
use documents_backend.Execution.Service.Grants.{
  Config, limits, request_progress_grant, grant_or_reuse, append_grant, grant_row, grant_store,
  grant_reply,
}
use documents_backend.Execution.Service.Reserve.{
  ReserveReply, Decision, crosses, decide, decided_reservation, decision_rows, soft_signal_of,
  soft_limit_signal, rows_after, advanced, decision_store, decision_reply, append_decision,
  repeat_reply, repeat_decision, reserve_new, reserve_or_repeat, reserve, reserve_operation_budget,
}
use documents_backend.Execution.Lifecycle.Events.{
  validate_operation_lifecycle, validate_state_transition, materialize_state,
}
use documents_backend.Execution.Lifecycle.Attempts
use documents_backend.Execution.Lifecycle.Attempts.{Accepted, more}
use documents_backend.Execution.Ingest.{
  Incoming, Surroundings, schema_of, validate_incoming_event, check_start,
  validate_operation_budget_start,
}
use documents_backend.Execution.Ingest.Loop.{
  AcceptReply, append_event, accept_new, accept_for, target_of, accept_one, accept_all,
  accepted_store, accept_events,
}
use documents_backend.Execution.Ingest.Log.{
  IsNumbered, accept_events-Reach, accept_events-Accepted, accept_events-IsNumbered,
}
use documents_backend.Execution.Service.Decisions.{
  GrantedOutcome, ExhaustedOutcome, TerminatedOutcome, BlockedOutcome, decide-outcome,
}
use documents_backend.Execution.Limits.Live.{live}
use documents_backend.Execution.Limits.Service.{
  Reach, empty, granted, reserved, committed-le-policy,
}
use documents_backend.Execution.Budget.Bounds.{
  IsAtMost, IsSoftLimit, IsStaged, resolve_effective_policy-IsAtMost,
}
use documents_backend.Execution.Progress.Starts.{HasTotals}
use documents_backend.Execution.Progress.Conservation.{project-HasTotals}
use documents_backend.Execution.Budget.Governed.{
  GovernedStart, governed_identity, governed_budget_start, assert_budget_projection,
}
use documents_backend.Execution.Budget.SingleUse.{governed-single_use}
use documents_backend.Execution.Service.Retry.{SameDecision, reserve_operation_budget-again}
use documents_backend.Execution.Events.{
  operation_started, operation_finished, failed, Payload, Event, Row,
}

-- What the runs compute with.
machine : Unit {0}
unfolding validate_operation_lifecycle validate_state_transition materialize_state
    validate_incoming_event check_start validate_operation_budget_start append_event accept_new
    accept_for target_of accept_one accept_all accepted_store accept_events operation_key
    governed_budget_start assert_budget_projection governed_identity lookup insert adjust insert_new
    is_uuid is_content_hash is_blank is_chat apply_budget_event apply_grant apply_soft_limit
    apply_reservation consume_budget_reservation guard_snapshot project step on_event record_started
    record_finished validate_progress_grant_request validate_reservation_request kind_of bucket_of
    has_basics has_tool_identity is_fingerprint batch_ok read_request check_uuids
    resolve_effective_policy create_grant assert_active_attempt assert_grant_scope
    without_grant_usage assert_reservation_scope assert_reservation_matches assert_bucket
    create_reservation warning_signal block_signal terminate_signal find_root save
    next_producer_sequence refresh snapshot limits request_progress_grant grant_or_reuse
    append_grant grant_row grant_store grant_reply crosses decide decided_reservation decision_rows
    soft_signal_of soft_limit_signal rows_after advanced decision_store decision_reply
    append_decision repeat_reply repeat_decision reserve_new reserve_or_repeat reserve
    reserve_operation_budget live
machine = tt

abbrev root_id : String
root_id = "00000000-0000-4000-8000-000000000001"

abbrev turn : String
turn = "00000000-0000-4000-8000-000000000002"

abbrev attempt : String
attempt = "00000000-0000-4000-8000-000000000003"

abbrev grant_id : String
grant_id = "00000000-0000-4000-8000-000000000004"

abbrev operation : String
operation = "00000000-0000-4000-8000-000000000005"

abbrev chat : Execution
chat = record {
  execution_id = root_id;
  root_execution_id = root_id;
  turn_id = some turn;
  task_type = "assistant-chat";
  status = running;
  phase = some "worker_execution";
  completion_kind = none;
  completion_reason = none;
  result = none;
  error = none;
  progress_policy = none;
  progress_ledger = none;
  claimed_by = none;
  attempt_id = some attempt;
  retry_count = 0;
  max_attempts = 3;
  started_at = none;
  completed_at = none;
  last_sequence = 0;
  last_event_id = none;
  completeness_status = "reproducible";
  missing_evidence = [];
}

abbrev policy : RawPolicy
policy = record {
  normal = nat 2;
  normal_inference_soft_limit = nat 1;
  repair = nat 1;
  closing = nat 1;
  max_tokens_per_inference = nat 512;
  tool_calls = nat 1;
  tool_call_soft_limit = nat 0;
  exact_tool_repeat_warning = flag true;
  exact_tool_repeat_block_after_warning = absent;
  exact_tool_repeat_terminate_after_block = absent;
}

abbrev grant_request : RawGrantRequest
grant_request = record {
  execution_id = root_id;
  turn_id = turn;
  loop_id = root_id;
  agent_name = "assistant";
  loop_kind = "top_level";
  execution_attempt_id = attempt;
  requested_policy = some policy;
}

abbrev inference_request : RawReservationRequest
inference_request = record {
  execution_id = root_id;
  loop_id = root_id;
  grant_id = grant_id;
  operation_id = operation;
  operation_kind = "inference";
  bucket = "normal";
  tool_call_id = none;
  operation_fingerprint = none;
  operation_fingerprint_version = none;
  tool_batch_size = none;
  tool_batch_index = none;
  phase = "agent_loop";
  round = nat 1;
  name = "chat_with_tools";
  execution_attempt_id = attempt;
}

abbrev first_ids : Fresh
first_ids = record {
  decision_id = grant_id;
  event_id = "e1";
  soft_limit_event_id = "e2";
  guard_event_id = "e3";
  now = "t1";
}

abbrev second_ids : Fresh
second_ids = record {
  decision_id = "00000000-0000-4000-8000-000000000006";
  event_id = "e4";
  soft_limit_event_id = "e5";
  guard_event_id = "e6";
  now = "t2";
}

abbrev no_config : Config
no_config name = none

abbrev start : Store
start = record { executions = chat ∷ []; rows = [] }

abbrev store_of {ℓ} : {A : Type ℓ} → Result (A × Store) → Store
store_of (ok (a, s)) = s
store_of _ = start

abbrev with_grant : Store
with_grant = store_of (request_progress_grant first_ids no_config root_id grant_request start)

abbrev with_reservation : Store
with_reservation =
    store_of (reserve_operation_budget second_ids root_id inference_request with_grant)

Reach-with_grant : Reach with_grant
unfolding machine
Reach-with_grant = granted (empty (chat ∷ [])) first_ids no_config root_id grant_request refl

Reach-with_reservation : Reach with_reservation
unfolding machine
Reach-with_reservation = reserved Reach-with_grant second_ids root_id inference_request refl

-- One of two normal inferences is reserved, and one is left.
committed-le-policy_example : (1 + 0 ≤ 2) × (◌≡◌ {A = ℕ} (1 + 1 + 0) 2) × (◌≡◌ {A = ℕ} 1 1)
unfolding machine
committed-le-policy_example = committed-le-policy Reach-with_reservation grant_id normal _ refl

abbrev asked : RequestedPolicy
asked = record {
  normal = 5;
  normal_inference_soft_limit = 9;
  repair = 0;
  closing = 1;
  max_tokens_per_inference = 512;
  tool_calls = 8;
  tool_call_soft_limit = 0;
  exact_tool_repeat_warning = some true;
  exact_tool_repeat_block_after_warning = some true;
  exact_tool_repeat_terminate_after_block = none;
}

-- Three normal inferences with a warning after two, and six tool calls without one.
resolve_effective_policy-IsAtMost_example :
    IsAtMost 3 5 3
    × IsAtMost 0 0 1
    × IsAtMost 1 1 1
    × IsAtMost 512 512 4096
    × IsAtMost 6 8 6
    × IsSoftLimit 3 9 2 2
    × IsSoftLimit 6 0 4 0
    × IsStaged (resolve_effective_policy asked (limits no_config))
unfolding machine
resolve_effective_policy-IsAtMost_example =
    resolve_effective_policy-IsAtMost asked (limits no_config)

-- The start of the inference that was reserved, and its finish.
abbrev started_payload : Payload
started_payload = record empty_payload {
  operation_kind = some inference;
  phase = some "agent_loop";
  name = some "chat_with_tools";
  round = some 1;
  loop_id = some root_id;
  loop_kind = some "top_level";
  execution_attempt_id = some attempt;
  budget_grant_id = some grant_id;
  budget_reservation_id = some second_ids.decision_id;
  budget_bucket = some "normal";
  budget_soft_limit_warning_applied = true;
}

abbrev inference_started : Event
inference_started = record {
  sequence = 4;
  event_type = operation_started;
  operation_id = some operation;
  attempt_id = some "1";
  tool_call_id = none;
  payload = started_payload;
}

abbrev inference_finished : Event
inference_finished = record {
  sequence = 5;
  event_type = operation_finished;
  operation_id = some operation;
  attempt_id = some "1";
  tool_call_id = none;
  payload = record started_payload { status = failed; prompt_tokens = some 7 };
}

abbrev whole_log : List Event
whole_log = envelopes with_reservation.rows ++ inference_started ∷ inference_finished ∷ []
