-- ===== src/Execution/Lifecycle/Replay.antt =====
-- The state events that `updateStatus` writes, read by `validateStateTransition` and
-- `materializeState` (src/execution/execution.service.ts).
use documents_backend.Common.{
  String, ◌≡◌, refl, some, List, arith, eq_string, eq_option, eq_refl, ok,
}
use documents_backend.Execution.Events.{Row}
use documents_backend.Execution.Entity.{
  Status, queued, running, waiting, completed, failed, cancelled, Execution,
}
use documents_backend.Execution.Service.Store.{Fresh}
use documents_backend.Execution.Lifecycle.{
  UpdateOptions, status_name, with_status, state_row, change_of,
}
use documents_backend.Execution.Lifecycle.Events.{
  validate_state_transition, status_of, with_state, to_state, change_state, materialize_state,
}

status_of-name : (s : Status) → status_of (status_name s) ≡ some s
unfolding status_of
status_of-name queued = refl
status_of-name running = refl
status_of-name waiting = refl
status_of-name completed = refl
status_of-name failed = refl
status_of-name cancelled = refl

-- The members that a state event carries.
pub record SameState (x y : Execution) : Type 0 where
  pub status : x.status ≡ y.status
  pub completion_kind : x.completion_kind ≡ y.completion_kind
  pub completion_reason : x.completion_reason ≡ y.completion_reason
  pub result : x.result ≡ y.result
  pub error : x.error ≡ y.error

with_status-status :
    (status : Status) (message : String) (options : UpdateOptions) (now : String) (x : Execution)
    → (with_status status message options now x).status ≡ status
unfolding with_status
with_status-status status message options now x = refl

-- The name in the event is read back.
change_state-named :
    (x after : Execution) (status : Status)
    → after.status ≡ status
    → change_state (some (change_of x after)) x ≡ ok (with_state status (change_of x after) x)
unfolding change_state to_state
change_state-named x after status same = rw (same, status_of-name status) refl

with_state-SameState :
    (status : Status) (message : String) (options : UpdateOptions) (now : String) (x : Execution)
    → let after = with_status status message options now x in
      SameState (with_state status (change_of x after) x) after
unfolding with_state with_status
with_state-SameState status message options now x = record {
  status = refl;
  completion_kind = ground arith;
  completion_reason = ground arith;
  result = ground arith;
  error = ground arith;
}

-- The event that a change of status writes passes the check against the execution as it was, and
-- read back it gives that execution the status, the completion, the result and the error that the
-- change gave it.
pub materialize_state-state_row :
    (fresh : Fresh) (rows : List Row) (root x : Execution) (status : Status) (message : String)
    (options : UpdateOptions)
    → let after = with_status status message options fresh.now x in
      let e = (state_row fresh rows root x after).envelope in
      (validate_state_transition x e ≡ ok tt)
      × ((z : Execution) × (materialize_state x e ≡ ok z) × SameState z after)
unfolding state_row validate_state_transition materialize_state
materialize_state-state_row fresh rows root x status message options =
    let after = with_status status message options fresh.now x in
    (
      rw (eq_refl (some (status_name x.status))) refl,
      (
        with_state status (change_of x after) x,
        change_state-named x after status (with_status-status status message options fresh.now x),
        with_state-SameState status message options fresh.now x,
      ),
    )
