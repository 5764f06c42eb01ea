-- ===== src/Execution/Events.antt =====
-- The append-only event log of an execution: src/execution/execution-event.entity.ts and the
-- event types of src/execution/execution-progress.ts.
use documents_backend.Common.{ℕ, String, Bool, true, false, Option, Eq, ◌≡◌, ◌↔◌, arith}
use documents_backend.Execution.Types.{
  OperationKind, Grant, Reservation, SoftLimitSignal, GuardSignal,
}

-- The seven types of the contract (`EXECUTION_EVENT_PAYLOADS`).
pub data EventType : Type 0 where
  execution_created state_changed operation_started operation_finished : EventType
  message_recorded source_observed progress_reported : EventType

-- The values of `payload.kind` that the code tests; `other_kind` is any other, or none.
pub data PayloadKind : Type 0 where
  budget_grant budget_soft_limit_reached loop_guard_triggered budget_reservation : PayloadKind
  policy_snapshot ledger_snapshot tool_output other_kind : PayloadKind

pub data FinishStatus : Type 0 where
  succeeded failed other_status : FinishStatus

abbrev pub type_eq : EventType → EventType → Bool
type_eq execution_created execution_created = true
type_eq state_changed state_changed = true
type_eq operation_started operation_started = true
type_eq operation_finished operation_finished = true
type_eq message_recorded message_recorded = true
type_eq source_observed source_observed = true
type_eq progress_reported progress_reported = true
type_eq _ _ = false

pub type_eq_iff : (a b : EventType) → (type_eq a b ≡ true) ↔ (a ≡ b)
type_eq_iff a b = ground arith

instance abbrev pub eq_type : Eq EventType
eq_type = record { same = type_eq; same_iff = type_eq_iff }

-- The policy of a loop as a worker reported it; the ledger only stores it.
pub record PolicySnapshot : Type 0 where
  pub loop_id : String
  pub body : String

-- The payload of `execution.state_changed`. The JSON of the execution's result is a text.
pub record StateChange : Type 0 where
  pub from : String
  pub to : String
  pub completion_kind : Option String
  pub completion_reason : Option String
  pub result : Option String
  pub error : Option (String × String)

-- The fields of `payload` that the backend reads. A field that is absent, or not of the type that
-- the code asks of it, is `none`; a flag is `true` exactly if the field is `=== true`.
pub record Payload : Type 0 where
  pub kind : PayloadKind
  pub grant : Option Grant
  pub signal : Option SoftLimitSignal
  pub loop_guard_signal : Option GuardSignal
  pub reservation : Option Reservation
  pub policy : Option PolicySnapshot
  pub operation_kind : Option OperationKind
  pub phase : Option String
  pub name : Option String
  pub round : Option ℕ
  pub loop_id : Option String
  pub loop_kind : Option String
  pub agent_name : Option String
  pub max_rounds : Option ℕ
  pub execution_attempt_id : Option String
  pub budget_grant_id : Option String
  pub budget_reservation_id : Option String
  pub budget_bucket : Option String
  pub budget_soft_limit_warning_applied : Bool
  pub loop_guard_warning_applied : Bool
  pub loop_guard_block_result_applied : Bool
  pub operation_fingerprint : Option String
  pub operation_fingerprint_version : Option String
  pub tool_batch_size : Option ℕ
  pub tool_batch_index : Option ℕ
  pub status : FinishStatus
  pub pending_confirmation : Bool
  pub prompt_tokens : Option ℕ
  pub generated_tokens : Option ℕ
  pub content_hash : Option String
  pub state_change : Option StateChange

-- `ProgressEvent`: the envelope, as far as the projection and the guard read it.
pub record Event : Type 0 where
  pub sequence : ℕ
  pub event_type : EventType
  pub operation_id : Option String
  pub attempt_id : Option String
  pub tool_call_id : Option String
  pub payload : Payload

-- A row of the event table.
pub record Row : Type 0 where
  pub event_id : String
  pub producer_component : String
  pub producer_instance_id : String
  pub producer_sequence : ℕ
  pub caused_by : Option String
  pub envelope : Event
