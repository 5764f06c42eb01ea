-- ===== src/Execution/Lifecycle/Tests.antt =====
-- The lifecycle theorems at a running execution whose worker is lost.
use documents_backend.Common.{
  arith, ◌≤◌, ◌<◌, ◌≡◌, ◌↔◌, ◌+◌, refl, Option, none, some, [], ◌∷◌, Result, ok, ◌⊎◌,
}
use documents_backend.Execution.Types.{inference}
use documents_backend.Execution.Events.{operation_started, operation_finished, Row}
use documents_backend.Execution.Entity.{running, queued, failed, completed, Execution}
use documents_backend.Execution.Service.Store.{
  Store, Fresh, find_root, save, max_producer_sequence, empty_payload, backend_row,
}
use documents_backend.Execution.Lifecycle.{
  with_status, state_row, save_both, stored, returned, find_root_of, apply_status, update_found,
  update_status, find_execution, no_options,
}
use documents_backend.Execution.Lifecycle.Requeue.{requeue}
use documents_backend.Execution.Lifecycle.Settled.{IsChanged, update_status-ok}
use documents_backend.Execution.Lifecycle.Recovery.{requeue-once, requeue-bound}
use documents_backend.Execution.Lifecycle.Losses.{Claimed, none_lost, lost_again, Losses-bound}
use documents_backend.Execution.Lifecycle.Events.{
  validate_state_transition, materialize_state, validate_operation_lifecycle,
}
use documents_backend.Execution.Lifecycle.Replay.{SameState, materialize_state-state_row}
use documents_backend.Execution.Lifecycle.Attempts.{Accepted, start, more, IsOnce, Accepted-IsOnce}

-- What the runs compute with.
machine : Unit {0}
unfolding find_root save max_producer_sequence with_status state_row save_both stored returned
    find_root_of apply_status update_found update_status find_execution requeue
    validate_state_transition materialize_state validate_operation_lifecycle
machine = tt

abbrev lost : Execution
lost = record {
  execution_id = "x";
  root_execution_id = "x";
  turn_id = none;
  task_type = "summarize";
  status = running;
  phase = some "worker_execution";
  completion_kind = none;
  completion_reason = none;
  result = none;
  error = none;
  progress_policy = none;
  progress_ledger = none;
  claimed_by = some "worker-1";
  attempt_id = some "a1";
  retry_count = 0;
  max_attempts = 2;
  started_at = some "t0";
  completed_at = none;
  last_sequence = 4;
  last_event_id = some "e4";
  completeness_status = "reproducible";
  missing_evidence = [];
}

abbrev before : Store
before = record { executions = lost ∷ []; rows = [] }

abbrev ids : Fresh
ids = record {
  decision_id = "";
  event_id = "e5";
  soft_limit_event_id = "";
  guard_event_id = "";
  now = "t1";
}

abbrev store_or : Result (Option Execution × Store) → Store
store_or (ok (x, s)) = s
store_or _ = before

abbrev execution_or : Result (Option Execution × Store) → Execution
execution_or (ok (some x, s)) = x
execution_or _ = lost

abbrev after_requeue : Store
after_requeue = store_or (requeue ids "Execution attempts exhausted" lost before)

abbrev requeued : Execution
requeued = execution_or (requeue ids "Execution attempts exhausted" lost before)

-- The execution is queued again with one retry, and a second round leaves it.
requeue-once_example : requeue ids "" lost after_requeue ≡ ok (none, after_requeue)
unfolding machine
requeue-once_example =
    requeue-once ids ids "" lost before after_requeue requeued lost "a1" refl refl refl refl

requeue-bound_example :
    (requeued.retry_count ≡ 1)
    × (((requeued.status ≡ queued) × (requeued.retry_count < 2))
        ⊎ ((requeued.status ≡ failed)
            × (2 ≤ requeued.retry_count)
            × (requeued.completion_reason ≡ some "attempts_exhausted")))
unfolding machine
requeue-bound_example = requeue-bound ids "" lost before after_requeue requeued refl refl refl

-- A worker that takes the execution and stores it as its own root.
abbrev taken : Execution → Execution
taken x = record x { status = running; root_execution_id = "x"; execution_id = "x" }

claims : (x : Execution) → x.status ≡ queued → Claimed x
unfolding machine
claims x waits = record {
  claimed = taken x;
  store = record { executions = taken x ∷ []; rows = [] };
  root = taken x;
  retries = refl;
  attempts = refl;
  runs = refl;
  found = refl;
  root_found = refl;
}

-- A worker that takes the execution "x" if it is stored.
claim_in : Store → Store
claim_in s = elim (find_execution "x" s.executions) [
  | none ↦ s
  | some x ↦ record s { executions = taken x ∷ [] }
]

abbrev waiting : Store
waiting = record before { executions = record lost { status = queued } ∷ [] }

abbrev once_recovered : Store
once_recovered = store_or (
    requeue ids "" (taken (record lost { status = queued }))
      (record before { executions = taken (record lost { status = queued }) ∷ [] }))

abbrev once_lost : Execution
once_lost = execution_or (
    requeue ids "" (taken (record lost { status = queued }))
      (record { executions = taken (record lost { status = queued }) ∷ []; rows = [] }))

Losses-bound_example : (0 + 1 ≤ 2) × ((once_lost.status ≡ failed) ↔ (0 + 1 ≡ 2))
unfolding machine claims
Losses-bound_example =
    Losses-bound (record lost { status = queued }) once_lost 1 refl (omega arith)
      (lost_again none_lost (record {
        waits = refl;
        held = claims (record lost { status = queued }) refl;
        fresh = ids;
        message = "";
        after = _;
        recovered = refl;
      }))

abbrev after_completion : Store
after_completion = store_or (update_status ids "x" completed "" no_options before)

abbrev ended : Execution
ended = execution_or (update_status ids "x" completed "" no_options before)

update_status-ok_example :
    (ended.status ≡ completed)
    × ((after_completion ≡ before) ⊎ IsChanged "x" no_options before ended after_completion)
unfolding machine
update_status-ok_example =
    update_status-ok ids completed "" no_options before after_completion ended "x" refl

abbrev failing : Execution
failing = with_status failed "out of memory" no_options "t1" lost

materialize_state-state_row_example :
    (validate_state_transition lost (state_row ids [] lost lost failing).envelope ≡ ok tt)
    × ((z : Execution) × (materialize_state lost (state_row ids [] lost lost failing).envelope
          ≡ ok z)
        × SameState z failing)
materialize_state-state_row_example =
    materialize_state-state_row ids [] lost lost failed "out of memory" no_options

abbrev started : Row
started = record (backend_row "e1" 1 1 none empty_payload) {
  envelope = record {
    sequence = 1;
    event_type = operation_started;
    operation_id = some "o";
    attempt_id = some "1";
    tool_call_id = none;
    payload = record empty_payload { operation_kind = some inference };
  };
}

abbrev finished : Row
finished = record started {
  envelope = record (started.envelope) { event_type = operation_finished };
}

Accepted-example_log : Accepted (started ∷ finished ∷ [])
unfolding machine
Accepted-example_log = more (more start started refl) finished refl

Accepted-IsOnce_example : IsOnce finished.envelope (started ∷ finished ∷ [])
Accepted-IsOnce_example = Accepted-IsOnce Accepted-example_log finished.envelope
