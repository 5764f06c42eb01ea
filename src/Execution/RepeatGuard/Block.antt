-- ===== src/Execution/RepeatGuard/Block.antt =====
-- The second and the third stage of the guard: `exactToolRepeatBlockSignal` and
-- `exactToolRepeatTerminateSignal` of src/execution/exact-tool-repeat-guard.ts.
use documents_backend.Common.{
  ℕ, ltb, String, Bool, true, false, not, ◌&&◌, ◌||◌, Option, none, some, List, [], ◌∷◌, ◌==◌, ◌!=◌,
  eq_nat, eq_string, eq_option, get_or, truthy, find, if◌then◌else◌,
}
use documents_backend.Execution.Types.{GuardAction, warn, block, terminate, GuardSignal, GuardState}
use documents_backend.Execution.Events.{Row}
use documents_backend.Execution.Budget.ReservationRequests.{ReservationRequest}
use documents_backend.Execution.RepeatGuard.{
  Rows, guard_signal_of, is_candidate, last_tool_start, succeeded_tool_finish, repeats_same_tool,
  warning_applied, block_result_applied, guard_application, tool_output_source,
}

abbrev is_warn : GuardAction → Bool
is_warn warn = true
is_warn _ = false

abbrev is_block : GuardAction → Bool
is_block block = true
is_block _ = false

unfoldable pub is_warning_for : ReservationRequest → Row → Bool
unfolding guard_signal_of
is_warning_for r row = elim (guard_signal_of row) [
  | none ↦ false
  | some s ↦ is_warn s.action && s.grant_id == r.grant_id && s.loop_id == r.loop_id
]

unfoldable pub signal_at : Option Row → Option GuardSignal
unfolding guard_signal_of
signal_at none = none
signal_at (some row) = guard_signal_of row

-- The stored warning for this grant and loop.
unfoldable pub stored_warning : Rows → ReservationRequest → Option GuardSignal
unfolding is_warning_for signal_at
stored_warning rows r = signal_at (find (is_warning_for r) rows)

unfoldable pub same_call : GuardSignal → ReservationRequest → Bool
same_call s r =
    s.operation_fingerprint == r.operation_fingerprint
    && s.operation_fingerprint_version == r.operation_fingerprint_version
    && s.execution_attempt_id == r.execution_attempt_id

-- The last tool call is the one at `operation_id`, and the request repeats it.
repeats_last : Rows → ReservationRequest → String → Bool
unfolding last_tool_start repeats_same_tool
repeats_last rows r operation_id = elim (last_tool_start rows r) [
  | none ↦ false
  | some last ↦
      last.envelope.operation_id == some operation_id && repeats_same_tool last.envelope.payload r
]

-- The members of `new Set([first, second])`.
abbrev distinct : String → String → List String
distinct first second = if first == second then first ∷ [] else first ∷ second ∷ []

-- A row that is there and stands before `sequence`.
abbrev is_before : ℕ → Option Row → Bool
is_before sequence none = false
is_before sequence (some row) = ltb row.envelope.sequence sequence

finished_before : Rows → ℕ → List String → Bool
unfolding succeeded_tool_finish
finished_before rows sequence [] = true
finished_before rows sequence (id ∷ ids) =
    is_before sequence (succeeded_tool_finish rows (some id) none)
    && finished_before rows sequence ids

observed_before : Rows → ℕ → List String → Bool
unfolding tool_output_source
observed_before rows sequence [] = true
observed_before rows sequence (id ∷ ids) =
    is_before sequence (tool_output_source rows id) && observed_before rows sequence ids

hash_of : Option Row → Option String
hash_of none = none
hash_of (some row) = some (get_or row.envelope.payload.content_hash "undefined")

hashes : Rows → List String → List (Option String)
unfolding tool_output_source hash_of
hashes rows [] = []
hashes rows (id ∷ ids) = hash_of (tool_output_source rows id) ∷ hashes rows ids

-- `resultHashes[0]`, if it is not empty and equals `resultHashes[1]`.
common_hash : List (Option String) → Option String
common_hash (some a ∷ some b ∷ rest) = if truthy (some a) && a == b then some a else none
common_hash _ = none

-- The one output that both calls had before the warning reached the model.
unfoldable pub repeated_result : Rows → ℕ → List String → Option String
unfolding finished_before observed_before hashes common_hash
repeated_result rows sequence ids =
    if finished_before rows sequence ids && observed_before rows sequence ids
    then common_hash (hashes rows ids)
    else none

block_of : ReservationRequest → String → String → GuardSignal → String → GuardSignal
block_of r warned_operation decided_at warning result = record {
  action = block;
  grant_id = r.grant_id;
  loop_id = r.loop_id;
  previous_operation_id = warning.triggering_operation_id;
  blocked_operation_id = none;
  triggering_operation_id = r.operation_id;
  warning_applied_to_operation_id = some warned_operation;
  block_result_applied_to_operation_id = none;
  operation_fingerprint = r.operation_fingerprint;
  operation_fingerprint_version = some "canonical_tool_input_v1";
  result_fingerprint = some result;
  execution_attempt_id = r.execution_attempt_id;
  decided_at = decided_at;
}

unfoldable pub block_after :
    Rows
    → ReservationRequest
    → String
    → String
    → Option GuardSignal
    → Option Row
    → Option GuardSignal
unfolding same_call repeats_last repeated_result block_of
block_after rows r warned_operation decided_at (some warning) (some application) =
    if same_call warning r && repeats_last rows r warning.triggering_operation_id
    then elim (repeated_result rows application.envelope.sequence
        (distinct warning.previous_operation_id warning.triggering_operation_id)) [
          | none ↦ none
          | some result ↦ some (block_of r warned_operation decided_at warning result)
        ]
    else none
block_after rows r warned_operation decided_at _ _ = none

-- `exactToolRepeatBlockSignal`.
unfoldable pub block_signal : Rows → ReservationRequest → GuardState → String → Option GuardSignal
block_signal rows r guard decided_at =
    let warned_operation = get_or guard.warning_applied_to_operation_id "" in
    if not (is_candidate r) || not (truthy guard.warning_applied_to_operation_id)
    then none
    else block_after rows r warned_operation decided_at (stored_warning rows r)
        (guard_application rows r warned_operation warning_applied)

unfoldable pub is_block_for : ReservationRequest → Option String → Row → Bool
unfolding guard_signal_of
is_block_for r blocked row = elim (guard_signal_of row) [
  | none ↦ false
  | some s ↦
      is_block s.action
      && s.grant_id == r.grant_id
      && s.loop_id == r.loop_id
      && some s.triggering_operation_id == blocked
]

terminate_of : ReservationRequest → GuardState → String → GuardSignal → GuardSignal
terminate_of r guard decided_at blocked = record {
  action = terminate;
  grant_id = r.grant_id;
  loop_id = r.loop_id;
  previous_operation_id = blocked.previous_operation_id;
  blocked_operation_id = some blocked.triggering_operation_id;
  triggering_operation_id = r.operation_id;
  warning_applied_to_operation_id = blocked.warning_applied_to_operation_id;
  block_result_applied_to_operation_id = guard.block_result_applied_to_operation_id;
  operation_fingerprint = r.operation_fingerprint;
  operation_fingerprint_version = some "canonical_tool_input_v1";
  result_fingerprint = blocked.result_fingerprint;
  execution_attempt_id = r.execution_attempt_id;
  decided_at = decided_at;
}

abbrev sequence_at : Option Row → ℕ
sequence_at none = 0
sequence_at (some row) = row.envelope.sequence

unfoldable pub terminate_after :
    Rows
    → ReservationRequest
    → GuardState
    → String
    → Option Row
    → Option GuardSignal
    → Option Row
    → Option GuardSignal
unfolding same_call repeats_last terminate_of
terminate_after rows r guard decided_at event (some blocked) (some application) =
    if ltb (sequence_at event) application.envelope.sequence
      && same_call blocked r
      && repeats_last rows r blocked.previous_operation_id
    then some (terminate_of r guard decided_at blocked)
    else none
terminate_after rows r guard decided_at event _ _ = none

-- `exactToolRepeatTerminateSignal`.
unfoldable pub terminate_signal :
    Rows → ReservationRequest → GuardState → String → Option GuardSignal
terminate_signal rows r guard decided_at =
    let event = find (is_block_for r guard.last_blocked_operation_id) rows in
    if not (is_candidate r)
      || r.tool_batch_size != some 1
      || r.tool_batch_index != some 0
      || guard.block_result_pending
      || not (truthy guard.last_blocked_operation_id)
      || not (truthy guard.warning_applied_to_operation_id)
      || not (truthy guard.block_result_applied_to_operation_id)
    then none
    else terminate_after rows r guard decided_at event (signal_at event) (
        guard_application rows r (get_or guard.block_result_applied_to_operation_id "")
          block_result_applied)
