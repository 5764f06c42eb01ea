-- ===== src/Execution/RepeatGuard.antt =====
-- The guard against a tool call that repeats the one before it exactly
-- (src/execution/exact-tool-repeat-guard.ts). The column `sequence` of a row is the `sequence` of
-- its envelope.
pub mod Block
use documents_backend.Common.{
  ℕ, ltb, leb, String, Bool, true, false, not, ◌&&◌, ◌||◌, Option, none, some, List, [], ◌∷◌, ◌==◌,
  ◌!=◌, eq_nat, eq_string, eq_option, get_or, is_some, truthy, any, map, find, find_last,
  if◌then◌else◌,
}
use documents_backend.Common.Text.{is_content_hash}
use documents_backend.Execution.Types.{
  OperationKind, inference, tool_call, eq_kind, GuardAction, warn, block, terminate, GuardSignal,
  GuardState,
}
use documents_backend.Execution.Events.{
  operation_started, operation_finished, source_observed, eq_type, succeeded, FinishStatus,
  tool_output, PayloadKind, Payload, Event, Row,
}
use documents_backend.Execution.Budget.ReservationRequests.{ReservationRequest}

abbrev pub Rows : Type 0
Rows = List Row

guard_signal_of : Row → Option GuardSignal
guard_signal_of row = row.envelope.payload.loop_guard_signal

abbrev is_succeeded : FinishStatus → Bool
is_succeeded succeeded = true
is_succeeded _ = false

abbrev is_tool_output : PayloadKind → Bool
is_tool_output tool_output = true
is_tool_output _ = false

unfoldable pub is_candidate : ReservationRequest → Bool
is_candidate r =
    r.operation_kind == tool_call
    && truthy r.operation_fingerprint
    && r.operation_fingerprint_version == some "canonical_tool_input_v1"

unfoldable pub is_tool_start : ReservationRequest → Row → Bool
is_tool_start r row =
    row.envelope.event_type == operation_started
    && row.envelope.payload.operation_kind == some tool_call
    && row.envelope.payload.loop_id == some r.loop_id
    && row.envelope.payload.budget_grant_id == some r.grant_id

unfoldable pub last_tool_start : Rows → ReservationRequest → Option Row
unfolding is_tool_start
last_tool_start rows r = find_last (is_tool_start r) rows

-- `none` for the attempt is `ANY_ATTEMPT`.
unfoldable pub is_succeeded_finish : Option String → Option (Option String) → Row → Bool
is_succeeded_finish operation_id attempt_id row =
    row.envelope.event_type == operation_finished
    && row.envelope.operation_id == operation_id
    && (elim attempt_id [ none ↦ true | some a ↦ row.envelope.attempt_id == a ])
    && row.envelope.payload.operation_kind == some tool_call
    && is_succeeded row.envelope.payload.status
    && not row.envelope.payload.pending_confirmation

unfoldable pub succeeded_tool_finish : Rows → Option String → Option (Option String) → Option Row
unfolding is_succeeded_finish
succeeded_tool_finish rows operation_id attempt_id =
    find (is_succeeded_finish operation_id attempt_id) rows

unfoldable pub repeats_same_tool : Payload → ReservationRequest → Bool
repeats_same_tool p r =
    p.name == some r.name
    && p.operation_fingerprint == r.operation_fingerprint
    && p.operation_fingerprint_version == r.operation_fingerprint_version
    && p.execution_attempt_id == some r.execution_attempt_id

-- `GuardAppliedFlag`.
pub data AppliedFlag : Type 0 where
  warning_applied block_result_applied : AppliedFlag

abbrev applied : AppliedFlag → Payload → Bool
applied warning_applied p = p.loop_guard_warning_applied
applied block_result_applied p = p.loop_guard_block_result_applied

unfoldable pub is_application : ReservationRequest → String → AppliedFlag → Row → Bool
is_application r operation_id applied_flag row =
    row.envelope.event_type == operation_started
    && row.envelope.operation_id == some operation_id
    && row.envelope.payload.operation_kind == some inference
    && row.envelope.payload.budget_bucket == some "normal"
    && row.envelope.payload.budget_grant_id == some r.grant_id
    && row.envelope.payload.loop_id == some r.loop_id
    && applied applied_flag row.envelope.payload
    && row.envelope.payload.execution_attempt_id == some r.execution_attempt_id

unfoldable pub guard_application : Rows → ReservationRequest → String → AppliedFlag → Option Row
unfolding is_application
guard_application rows r operation_id applied_flag =
    find (is_application r operation_id applied_flag) rows

is_output_of : String → Row → Bool
is_output_of operation_id row =
    row.envelope.event_type == source_observed
    && row.envelope.operation_id == some operation_id
    && is_tool_output row.envelope.payload.kind
    && is_content_hash (get_or row.envelope.payload.content_hash "")

unfoldable pub tool_output_source : Rows → String → Option Row
unfolding is_output_of
tool_output_source rows operation_id = find (is_output_of operation_id) rows

-- The signal of the first stage, once `previous` is known.
warning_of : ReservationRequest → String → Row → GuardSignal
warning_of r decided_at previous = record {
  action = warn;
  grant_id = r.grant_id;
  loop_id = r.loop_id;
  previous_operation_id = get_or previous.envelope.operation_id "undefined";
  blocked_operation_id = none;
  triggering_operation_id = r.operation_id;
  warning_applied_to_operation_id = none;
  block_result_applied_to_operation_id = none;
  operation_fingerprint = r.operation_fingerprint;
  operation_fingerprint_version = some "canonical_tool_input_v1";
  result_fingerprint = none;
  execution_attempt_id = r.execution_attempt_id;
  decided_at = decided_at;
}

warn_after : Rows → ReservationRequest → String → Option Row → Option GuardSignal
unfolding repeats_same_tool succeeded_tool_finish warning_of
warn_after rows r decided_at none = none
warn_after rows r decided_at (some previous) =
    if repeats_same_tool previous.envelope.payload r
      && is_some (
          succeeded_tool_finish rows previous.envelope.operation_id
            (some previous.envelope.attempt_id))
    then some (warning_of r decided_at previous)
    else none

-- `exactToolRepeatWarningSignal`.
unfoldable pub warning_signal : Rows → ReservationRequest → GuardState → String → Option GuardSignal
unfolding is_candidate last_tool_start warn_after
warning_signal rows r guard decided_at =
    if not (is_candidate r) || guard.warning_issued
    then none
    else warn_after rows r decided_at (last_tool_start rows r)
