-- ===== src/Execution/Service/Decisions.antt =====
-- The stages of the guard follow each other, and stop an operation at most once
-- (src/execution/exact-tool-repeat-guard.ts and `reserveOperationBudget` of
-- src/execution/execution.service.ts).
use documents_backend.Common.{
  ◌<◌, ltb, String, true, false, ◌≡◌, refl, Option, none, some, List, arith, eq_string, eq_iff,
  eq_option, option_eq_iff, inl, inr, ◌⊎◌, Bool-cases, Option-cases, find, find-holds, find-split,
  ◌++◌, ◌∷◌, get_or,
}
use documents_backend.Execution.Types.{
  GuardAction, warn, block, GuardSignal, GuardState, GrantState,
}
use documents_backend.Execution.Events.{Row}
use documents_backend.Execution.Progress.BudgetEvents.{usage_of}
use documents_backend.Execution.Budget.ReservationRequests.{ReservationRequest}
use documents_backend.Execution.RepeatGuard.{
  Rows, guard_application, warning_applied, block_result_applied,
}
use documents_backend.Execution.RepeatGuard.Block.{
  is_warning_for, is_block_for, signal_at, stored_warning, same_call, block_after, block_signal,
  terminate_after, terminate_signal,
}
use documents_backend.Execution.Service.Reserve.{Decision, decide}

-- An earlier signal of this action, for the grant and the loop of the request and for the same
-- call of the same tool in the same attempt.
pub record IsStage (action : GuardAction) (rows : Rows) (r : ReservationRequest) : Type 0 where
  pub signal : GuardSignal
  pub row : Row
  pub before : List Row
  pub after : List Row
  pub placed : rows ≡ before ++ row ∷ after
  pub stored : row.envelope.payload.loop_guard_signal ≡ some signal
  pub of_action : signal.action ≡ action
  pub grant : signal.grant_id ≡ r.grant_id
  pub loop : signal.loop_id ≡ r.loop_id
  pub fingerprint : signal.operation_fingerprint ≡ r.operation_fingerprint
  pub attempt : signal.execution_attempt_id ≡ r.execution_attempt_id

block_after-some :
    (rows : Rows) (r : ReservationRequest) (id now : String) (w : Option GuardSignal)
    (a : Option Row) {s : GuardSignal}
    → block_after rows r id now w a ≡ some s
    → (warning : GuardSignal) × (w ≡ some warning) × (same_call warning r ≡ true)
unfolding block_after
block_after-some rows r id now none a h = cc
block_after-some rows r id now (some warning) none h = cc
block_after-some rows r id now (some warning) (some row) h = (warning, refl, ground arith)

terminate_after-some :
    (rows : Rows) (r : ReservationRequest) (guard : GuardState) (now : String) (event : Option Row)
    (b : Option GuardSignal) (a : Option Row) {s : GuardSignal}
    → terminate_after rows r guard now event b a ≡ some s
    → (blocked : GuardSignal) × (b ≡ some blocked) × (same_call blocked r ≡ true)
unfolding terminate_after
terminate_after-some rows r guard now event none a h = cc
terminate_after-some rows r guard now event (some blocked) none h = cc
terminate_after-some rows r guard now event (some blocked) (some row) h =
    (blocked, refl, ground arith)

same_call-facts :
    (s : GuardSignal) (r : ReservationRequest)
    → same_call s r ≡ true
    → (s.operation_fingerprint ≡ r.operation_fingerprint)
      × (s.execution_attempt_id ≡ r.execution_attempt_id)
unfolding same_call
same_call-facts s r h = (
  (option_eq_iff s.operation_fingerprint r.operation_fingerprint).0 (ground arith),
  (eq_iff s.execution_attempt_id r.execution_attempt_id).0 (ground arith),
)

-- What the row of a stored warning, or of a stored block, holds.
warning-facts :
    (r : ReservationRequest) (row : Row) (s : GuardSignal)
    → is_warning_for r row ≡ true
    → signal_at (some row) ≡ some s
    → (s.action ≡ warn) × (s.grant_id ≡ r.grant_id) × (s.loop_id ≡ r.loop_id)
unfolding is_warning_for signal_at
warning-facts r row s h e = (
  ground arith,
  (eq_iff s.grant_id r.grant_id).0 (ground arith),
  (eq_iff s.loop_id r.loop_id).0 (ground arith),
)

block-facts :
    (r : ReservationRequest) (id : Option String) (row : Row) (s : GuardSignal)
    → is_block_for r id row ≡ true
    → signal_at (some row) ≡ some s
    → (s.action ≡ block) × (s.grant_id ≡ r.grant_id) × (s.loop_id ≡ r.loop_id)
unfolding is_block_for signal_at
block-facts r id row s h e = (
  ground arith,
  (eq_iff s.grant_id r.grant_id).0 (ground arith),
  (eq_iff s.loop_id r.loop_id).0 (ground arith),
)

signal_at-row :
    (o : Option Row) (s : GuardSignal)
    → signal_at o ≡ some s
    → (row : Row) × (o ≡ some row)
      × (signal_at (some row) ≡ some s)
      × (row.envelope.payload.loop_guard_signal ≡ some s)
unfolding signal_at
signal_at-row none s h = cc
signal_at-row (some row) s h = (row, refl, h, h)

block_signal-IsStage :
    (rows : Rows) (r : ReservationRequest) (guard : GuardState) (now : String) {s : GuardSignal}
    → block_signal rows r guard now ≡ some s
    → IsStage warn rows r
unfolding block_signal stored_warning
block_signal-IsStage rows r guard now {s} h =
    let warned = get_or guard.warning_applied_to_operation_id "" in
    let (warning, found, same) =
      block_after-some rows r warned now (stored_warning rows r)
        (guard_application rows r warned warning_applied) {s = s} (ground arith) in
    let (row, at, kept, stored) = signal_at-row (find (is_warning_for r) rows) warning found in
    let (before, (after, placed)) = find-split (is_warning_for r) rows at in
    let (of_action, grant, loop) =
      warning-facts r row warning (find-holds (is_warning_for r) rows at) kept in
    let (fingerprint, attempt) = same_call-facts warning r same in
    record {
      signal = warning;
      row = row;
      before = before;
      after = after;
      placed = placed;
      stored = stored;
      of_action = of_action;
      grant = grant;
      loop = loop;
      fingerprint = fingerprint;
      attempt = attempt;
    }

terminate_signal-IsStage :
    (rows : Rows) (r : ReservationRequest) (guard : GuardState) (now : String) {s : GuardSignal}
    → terminate_signal rows r guard now ≡ some s
    → IsStage block rows r
unfolding terminate_signal
terminate_signal-IsStage rows r guard now {s} h =
    let p = is_block_for r guard.last_blocked_operation_id in
    let (blocked, found, same) =
      terminate_after-some rows r guard now (find p rows) (signal_at (find p rows))
        (guard_application rows r (get_or guard.block_result_applied_to_operation_id "")
          block_result_applied)
        {s = s} (ground arith) in
    let (row, at, kept, stored) = signal_at-row (find p rows) blocked found in
    let (before, (after, placed)) = find-split p rows at in
    let (of_action, grant, loop) =
      block-facts r guard.last_blocked_operation_id row blocked (find-holds p rows at) kept in
    let (fingerprint, attempt) = same_call-facts blocked r same in
    record {
      signal = blocked;
      row = row;
      before = before;
      after = after;
      placed = placed;
      stored = stored;
      of_action = of_action;
      grant = grant;
      loop = loop;
      fingerprint = fingerprint;
      attempt = attempt;
    }

abbrev pub GrantedOutcome : Decision → GrantState → ReservationRequest → Type 0
GrantedOutcome d g r =
    (d.granted ≡ true)
    × (0 < (usage_of r.bucket g.usage).available)
    × (d.terminated ≡ none)
    × (d.blocked ≡ none)

abbrev pub ExhaustedOutcome : Decision → GrantState → ReservationRequest → Type 0
ExhaustedOutcome d g r =
    (d.granted ≡ false)
    × ((usage_of r.bucket g.usage).available ≡ 0)
    × (d.terminated ≡ none)
    × (d.blocked ≡ none)
    × (d.warned ≡ none)

abbrev pub TerminatedOutcome : Decision → Rows → ReservationRequest → Type 0
TerminatedOutcome d rows r =
    (s : GuardSignal) × (d.terminated ≡ some s)
    × IsStage block rows r
    × (d.granted ≡ false)
    × (d.blocked ≡ none)
    × (d.warned ≡ none)

abbrev pub BlockedOutcome : Decision → Rows → ReservationRequest → Type 0
BlockedOutcome d rows r =
    (s : GuardSignal) × (d.blocked ≡ some s)
    × IsStage warn rows r
    × (d.granted ≡ false)
    × (d.terminated ≡ none)
    × (d.warned ≡ none)

-- A new operation has one of four outcomes. It is granted, a unit being available and the guard
-- not stopping it; or no unit is left; or the guard terminates the loop, and then the log holds an
-- earlier block of the same call in the same attempt; or the guard blocks it, and then the log
-- holds an earlier warning of that call. It is warned only if it is granted.
pub decide-outcome :
    (rows : Rows) (r : ReservationRequest) (g : GrantState) (guard : GuardState) (now : String)
    → let d = decide rows r g guard now in
      GrantedOutcome d g r
      ⊎ (ExhaustedOutcome d g r ⊎ (TerminatedOutcome d rows r ⊎ BlockedOutcome d rows r))
unfolding decide
decide-outcome rows r g guard now = elim (Option-cases (decide rows r g guard now).terminated) [
  | inr (s, t) ↦
      let stage = terminate_signal-IsStage rows r guard now {s = s} (ground arith) in
      inr (inr (inl (s, t, stage, ground arith, ground arith, ground arith)))
  | inl t ↦ elim (Option-cases (decide rows r g guard now).blocked) [
    | inr (s, u) ↦
        let stage = block_signal-IsStage rows r guard now {s = s} (ground arith) in
        inr (inr (inr (s, u, stage, ground arith, t, ground arith)))
    | inl u ↦ elim (Bool-cases (ltb 0 (usage_of r.bucket g.usage).available)) [
      | inl v ↦ inl (ground arith, ground arith, t, u)
      | inr v ↦ inr (inl (ground arith, ground arith, t, u, ground arith))
    ]
  ]
]
