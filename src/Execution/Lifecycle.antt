-- ===== src/Execution/Lifecycle.antt =====
-- The states of an execution: `updateStatus` and `requeueStaleExecutions` of
-- src/execution/execution.service.ts.
pub mod Requeue
pub mod Events
pub mod Settled
pub mod Recovery
pub mod Replay
pub mod Attempts
pub mod Losses
pub mod Exhausted
mod Tests
use documents_backend.Common.{
  ℕ, ◌+◌, String, Bool, true, false, not, ◌&&◌, ◌||◌, Option, none, some, List, [], ◌∷◌, ◌++◌, find,
  ◌==◌, ◌!=◌, eq_string, eq_option, get_or, is_some, if◌then◌else◌, Result, ok, err, not_found,
  ◌>>=◌,
}
use documents_backend.Execution.Events.{state_changed, StateChange, Row}
use documents_backend.Execution.Entity.{
  Status, queued, running, waiting, completed, failed, cancelled, eq_status, is_terminal, Execution,
}
use documents_backend.Execution.Service.Store.{
  Store, Fresh, find_root, save, max_producer_sequence, backend, instance, empty_payload,
}

abbrev pub status_name : Status → String
status_name queued = "queued"
status_name running = "running"
status_name waiting = "waiting"
status_name completed = "completed"
status_name failed = "failed"
status_name cancelled = "cancelled"

-- The options of `updateStatus`. For the attempt, `none` is `undefined`, `some none` is `null`.
pub record UpdateOptions : Type 0 where
  pub completion_reason : Option String
  pub expected_attempt_id : Option (Option String)
  pub increment_retry : Bool

abbrev pub no_options : UpdateOptions
no_options = record {
  completion_reason = none;
  expected_attempt_id = none;
  increment_retry = false;
}

-- `findOne({ where: { executionId }, lock })`.
unfoldable pub find_execution : String → List Execution → Option Execution
find_execution id xs = find (λ x. x.execution_id == id) xs

-- The worker holds the execution no longer.
abbrev pub is_released : Status → Bool
is_released s = s == queued || s == waiting || is_terminal s

abbrev pub default_reason : Status → String
default_reason failed = "processor_failed"
default_reason cancelled = "cancelled"
default_reason _ = "backend_finalized"

-- An error that is there is kept.
abbrev pub failure : Status → String → Option (String × String) → Option (String × String)
failure failed message none = some ("EXECUTION_FAILED", message)
failure _ message e = e

abbrev retried : Bool → ℕ → ℕ
retried b n = if b then n + 1 else n

-- The members that the three `if` statements assign, in their order. `message` is the failure's
-- message after its redaction.
unfoldable pub with_status : Status → String → UpdateOptions → String → Execution → Execution
with_status status message options now x =
    let released = is_released status in
    let ended = is_terminal status in
    record x {
      status = status;
      retry_count = retried options.increment_retry x.retry_count;
      claimed_by = if released then none else x.claimed_by;
      attempt_id = if released then none else x.attempt_id;
      started_at = if released then none else x.started_at;
      phase = if released then none else x.phase;
      completed_at = if ended then some now else x.completed_at;
      completion_kind = if ended then some "full" else x.completion_kind;
      completion_reason =
          if ended
          then some (get_or options.completion_reason (default_reason status))
          else x.completion_reason;
      error = failure status message x.error;
    }

abbrev if_ended {ℓ} : {A : Type ℓ} → Status → Option A → Option A
if_ended s o = if is_terminal s then o else none

abbrev pub change_of : Execution → Execution → StateChange
change_of before after = record {
  from = status_name before.status;
  to = status_name after.status;
  completion_kind = if_ended after.status after.completion_kind;
  completion_reason = if_ended after.status after.completion_reason;
  result = if_ended after.status after.result;
  error = if_ended after.status after.error;
}

-- The event that is appended to the log of the root: `before` is the execution as it was, `after`
-- as it is saved.
unfoldable pub state_row : Fresh → List Row → Execution → Execution → Execution → Row
state_row fresh rows root before after = record {
  event_id = fresh.event_id;
  producer_component = backend;
  producer_instance_id = instance;
  producer_sequence = max_producer_sequence 0 rows + 1;
  caused_by = root.last_event_id;
  envelope = record {
    sequence = root.last_sequence + 1;
    event_type = state_changed;
    operation_id = none;
    attempt_id = before.attempt_id;
    tool_call_id = none;
    payload = record empty_payload { state_change = some (change_of before after) };
  };
}

abbrev pub advance : Fresh → ℕ → Execution → Execution
advance fresh n x = record x { last_sequence = n; last_event_id = some fresh.event_id }

-- `execution` and `root` are one object if the execution is its own root; else both are saved.
unfoldable pub save_both : Fresh → ℕ → Execution → Execution → List Execution → List Execution
save_both fresh n x root xs =
    if root.execution_id == x.execution_id
    then save (advance fresh n x) xs
    else save (advance fresh n root) (save x xs)

unfoldable pub stored : Fresh → Store → Execution → Execution → Execution → Store
stored fresh s root before after = record {
  executions = save_both fresh (root.last_sequence + 1) after root s.executions;
  rows = s.rows ++ state_row fresh s.rows root before after ∷ [];
}

-- The execution that is returned: with the changes of its root, if it is its own.
unfoldable pub returned : Fresh → Execution → Execution → Execution
returned fresh root x =
    if root.execution_id == x.execution_id then advance fresh (root.last_sequence + 1) x else x

unfoldable pub find_root_of : Execution → List Execution → Result Execution
find_root_of x xs =
    if x.root_execution_id == x.execution_id then ok x else find_root x.root_execution_id xs

unfoldable pub apply_status :
    Fresh → Status → String → UpdateOptions → Store → Execution → Result (Option Execution × Store)
apply_status fresh status message options s x = find_root_of x s.executions >>= λ root.
    let after = with_status status message options fresh.now x in
    ok (some (returned fresh root after), stored fresh s root x after)

-- `options?.expectedAttemptId !== undefined && …`.
abbrev pub is_other_attempt : UpdateOptions → Execution → Bool
is_other_attempt options x = elim options.expected_attempt_id [
  | none ↦ false
  | some expected ↦ x.attempt_id != expected
]

unfoldable pub update_found :
    Fresh
    → Status
    → String
    → UpdateOptions
    → Store
    → Option Execution
    → Result (Option Execution × Store)
update_found fresh status message options s none = ok (none, s)
update_found fresh status message options s (some x) =
    if is_other_attempt options x
    then ok (none, s)
    else if x.status == status
    then ok (some x, s)
    else apply_status fresh status message options s x

-- `updateStatus`, with the redacted message of a failure.
unfoldable pub update_status :
    Fresh → String → Status → String → UpdateOptions → Store → Result (Option Execution × Store)
update_status fresh id status message options s =
    update_found fresh status message options s (find_execution id s.executions)
