-- ===== src/Execution/Lifecycle/Events.antt =====
-- The checks of a worker's event on the state of an execution and of an operation:
-- `validateStateTransition`, `materializeState` and `validateOperationLifecycle` of
-- src/execution/execution.service.ts.
use documents_backend.Common.{
  String, Bool, ◌&&◌, Option, none, some, List, find, ◌==◌, ◌!=◌, eq_string, eq_option, get_or,
  is_some, if◌then◌else◌, Result, ok, err, bad_request, conflict, throw_if,
}
use documents_backend.Execution.Types.{OperationKind, eq_kind}
use documents_backend.Execution.Events.{
  EventType, state_changed, operation_started, operation_finished, eq_type, StateChange, Event, Row,
}
use documents_backend.Execution.Entity.{
  Status, queued, running, waiting, completed, failed, cancelled, is_terminal, Execution,
}
use documents_backend.Execution.Lifecycle.{status_name}

-- `payload.from`, which is missing if the payload is none of a state change.
abbrev pub from_of : Option StateChange → Option String
from_of none = none
from_of (some c) = some c.from

unfoldable pub validate_state_transition : Execution → Event → Result (Unit {0})
validate_state_transition x e =
    throw_if
      (e.event_type == state_changed
        && from_of e.payload.state_change != some (status_name x.status))
      (conflict "Execution state changed")

-- The state of a name.
unfoldable pub status_of : String → Option Status
status_of s =
    if s == "queued"
    then some queued
    else if s == "running"
    then some running
    else if s == "waiting"
    then some waiting
    else if s == "completed"
    then some completed
    else if s == "failed"
    then some failed
    else if s == "cancelled"
    then some cancelled
    else none

unfoldable pub with_state : Status → StateChange → Execution → Execution
with_state status c x =
    let ended = is_terminal status in
    record x {
      status = status;
      completion_kind = if ended then some (get_or c.completion_kind "full") else x.completion_kind;
      completion_reason =
          if ended then some (get_or c.completion_reason "unknown") else x.completion_reason;
      result = if ended then c.result else x.result;
      error = if ended then c.error else x.error;
    }

unfoldable pub to_state : Option Status → StateChange → Execution → Result Execution
to_state none c x = err (bad_request "Invalid execution state")
to_state (some status) c x = ok (with_state status c x)

unfoldable pub change_state : Option StateChange → Execution → Result Execution
change_state none x = err (bad_request "Invalid execution state")
change_state (some c) x = to_state (status_of c.to) c x

unfoldable pub materialize_state : Execution → Event → Result Execution
unfolding change_state
materialize_state x e =
    if e.event_type == state_changed then change_state e.payload.state_change x else ok x

-- The rows of one attempt of one operation.
abbrev pub is_related : EventType → Event → Row → Bool
is_related type e row =
    row.envelope.operation_id == e.operation_id
    && row.envelope.attempt_id == e.attempt_id
    && row.envelope.event_type == type

unfoldable pub check_finish : Option OperationKind → Option Row → Option Row → Result (Unit {0})
check_finish kind none finish = err (bad_request "Operation finish has no matching start")
check_finish kind (some start) (some finish) = err (conflict "Operation attempt already finished")
check_finish kind (some start) none =
    throw_if (start.envelope.payload.operation_kind != kind)
      (bad_request "Operation kind changed within an attempt")

-- An attempt starts once, and finishes once after its start, as the same kind of operation.
unfoldable pub validate_operation_lifecycle : List Row → Event → Result (Unit {0})
unfolding check_finish
validate_operation_lifecycle rows e =
    let start = find (is_related operation_started e) rows in
    let finish = find (is_related operation_finished e) rows in
    if e.event_type == operation_started
    then throw_if (is_some start) (conflict "Operation attempt already started")
    else if e.event_type == operation_finished
    then check_finish e.payload.operation_kind start finish
    else ok tt
