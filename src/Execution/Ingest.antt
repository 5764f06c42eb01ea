-- ===== src/Execution/Ingest.antt =====
-- The events that a worker sends: `acceptEvents` of src/execution/execution.service.ts.
pub mod Loop
pub mod Admission
pub mod Log
use documents_backend.Common.{
  ℕ, ◌+◌, ltb, leb, String, Bool, true, false, not, ◌&&◌, ◌||◌, Option, none, some, List, [], ◌∷◌,
  all, any, ◌==◌, ◌!=◌, eq_string, eq_nat, truthy, is_some, get_or, if◌then◌else◌, Result, ok, err,
  bad_request, conflict, throw_if, ◌>>=◌, ◌>>◌,
}
use documents_backend.Common.Text.{is_uuid, is_blank}
use documents_backend.Execution.Events.{
  EventType, execution_created, state_changed, operation_started, operation_finished,
  message_recorded, source_observed, progress_reported, eq_type, PayloadKind, budget_grant,
  budget_soft_limit_reached, loop_guard_triggered, budget_reservation, Event, Row,
}
use documents_backend.Execution.Entity.{Execution}
use documents_backend.Execution.Progress.Consume.{guard_snapshot}
use documents_backend.Execution.Progress.Projection.{project}
use documents_backend.Execution.Budget.Requests.{Number, at_least, number}
use documents_backend.Execution.Budget.Governed.{
  GovernedStart, governed_budget_start, assert_budget_projection,
}
use documents_backend.Execution.Service.Store.{envelopes}

-- An event as it comes. Its `sequence` is given by the backend, so that the one in `event` is of no
-- account; an `eventType` that is none of the seven is no `EventType` and is refused by its schema.
pub record Incoming : Type 0 where
  pub event_id : String
  pub root_execution_id : String
  pub execution_id : String
  pub payload_schema : String
  pub producer_component : String
  pub producer_instance_id : String
  pub producer_sequence : Number
  pub has_timestamp : Bool
  pub data_classification : String
  pub caused_by : Option String
  pub artifact_refs : List String
  pub event : Event

-- What lies outside the root's rows: the checks on the raw JSON (`rejectForbiddenData` and the
-- contract's schema), the events of other roots, and the artifacts of this one.
pub record Surroundings : Type 0 where
  pub screen : Incoming → Result (Unit {0})
  pub is_elsewhere : String → Bool
  pub has_artifact : String → Bool

-- `EXECUTION_EVENT_PAYLOADS[eventType]`.
abbrev pub schema_of : EventType → String
schema_of execution_created = "execution.created/1"
schema_of state_changed = "execution.state_changed/1"
schema_of operation_started = "operation.started/1"
schema_of operation_finished = "operation.finished/1"
schema_of message_recorded = "message.recorded/1"
schema_of source_observed = "source.observed/1"
schema_of progress_reported = "progress.reported/1"

-- The kinds that only the backend may report.
abbrev pub is_budget_kind : PayloadKind → Bool
is_budget_kind budget_grant = true
is_budget_kind budget_soft_limit_reached = true
is_budget_kind loop_guard_triggered = true
is_budget_kind budget_reservation = true
is_budget_kind _ = false

-- `validateIncomingEvent`.
unfoldable pub validate_incoming_event : Surroundings → Execution → Incoming → Result (Unit {0})
validate_incoming_event w root i = do
  throw_if
      (not (is_uuid i.event_id)
        || not (is_uuid i.root_execution_id)
        || not (is_uuid i.execution_id))
      (bad_request "must be a UUID")
  throw_if (i.root_execution_id != root.root_execution_id)
      (bad_request "Event identity is outside execution scope")
  throw_if (schema_of i.event.event_type != i.payload_schema)
      (bad_request "Unsupported event or payload schema")
  throw_if (i.producer_component != "documents-models" || is_blank i.producer_instance_id)
      (bad_request "Only documents-models may use internal ingestion")
  throw_if (not (at_least 1 i.producer_sequence))
      (bad_request "producerSequence must be a positive integer")
  throw_if (not i.has_timestamp) (bad_request "occurredAt must be a timestamp")
  throw_if (i.data_classification == "secret") (bad_request "Secret data cannot enter a execution")
  throw_if (i.event.event_type == progress_reported && is_budget_kind i.event.payload.kind)
      (bad_request "Budget decisions can only be emitted by documents-backend")
  w.screen i

unfoldable pub check_start : List Row → Option GovernedStart → Result (Unit {0})
check_start rows none = ok tt
check_start rows (some start) =
    let l = (project (envelopes rows)).ledger in
    assert_budget_projection start l.operation_budget (guard_snapshot l start.grant_id)

-- `validateOperationBudgetStart`.
unfoldable pub validate_operation_budget_start : List Row → Execution → Event → Result (Unit {0})
validate_operation_budget_start rows x e = governed_budget_start x e >>= check_start rows

-- The rows of the event's producer.
abbrev pub is_of_producer : Incoming → Row → Bool
is_of_producer i row =
    row.producer_component == i.producer_component
    && row.producer_instance_id == i.producer_instance_id

-- A row of the producer that is numbered as high as the event, or higher.
abbrev pub is_not_before : Incoming → Row → Bool
is_not_before i row = is_of_producer i row && leb (number i.producer_sequence) row.producer_sequence

abbrev pub is_occupied : Incoming → Row → Bool
is_occupied i row = is_of_producer i row && row.producer_sequence == number i.producer_sequence

abbrev pub has_event : String → List Row → Bool
has_event id rows = any (λ row. row.event_id == id) rows

-- The cause, if there is one, is an event of the root.
abbrev pub is_unknown_cause : Incoming → List Row → Bool
is_unknown_cause i rows = truthy i.caused_by && not (has_event (get_or i.caused_by "") rows)
