-- ===== src/Execution/Budget/Governed.antt =====
-- The check of a started operation against its reservation: `governedBudgetStart` and
-- `assertOperationBudgetProjection` of src/execution/inference-budget-policy.ts.
use documents_backend.Common.{
  ℕ, String, Bool, true, false, not, ◌&&◌, ◌||◌, Option, none, some, ◌==◌, ◌!=◌, eq_nat, eq_string,
  eq_option, get_or, is_some, is_true, truthy, if◌then◌else◌, Result, ok, err, conflict, throw_if,
  ◌>>◌,
}
use documents_backend.Common.Dict.{lookup}
use documents_backend.Common.Text.{is_uuid}
use documents_backend.Execution.Types.{
  OperationKind, Bucket, normal, repair, closing, tool, eq_kind, eq_bucket, status_eq, reserved,
  Reservation, GrantState, Budget, GuardState,
}
use documents_backend.Execution.Events.{operation_started, eq_type, Payload, Event}
use documents_backend.Execution.Entity.{Execution, is_chat}
use documents_backend.Execution.Budget.Checks.{is_tool_call, non_empty}

-- Numbers read by `Number(x)`: `none` is NaN, which equals nothing.
pub record GovernedStart : Type 0 where
  pub operation_id : String
  pub operation_kind : OperationKind
  pub tool_call_id : Option String
  pub grant_id : String
  pub reservation_id : String
  pub execution_attempt_id : String
  pub bucket : String
  pub loop_id : String
  pub phase : String
  pub round : Option ℕ
  pub name : String
  pub budget_soft_limit_warning_applied : Bool
  pub operation_fingerprint : Option String
  pub operation_fingerprint_version : Option String
  pub tool_batch_size : Option ℕ
  pub tool_batch_index : Option (Option ℕ)
  pub loop_guard_warning_applied : Bool
  pub loop_guard_block_result_applied : Bool

-- `EXCLUDED_CHAT_INFERENCE_PHASES.has(phase)`.
is_excluded_phase : String → Bool
is_excluded_phase phase = phase == "memory_extraction" || phase == "structured_output_repair"

unfoldable pub is_governed : Execution → OperationKind → Payload → Bool
unfolding is_chat is_excluded_phase
is_governed x kind p =
    is_chat x.task_type
    && p.loop_kind != some "synchronous_subagent"
    && (is_tool_call kind || not (is_excluded_phase (get_or p.phase "")))

unfoldable pub governed_identity : OperationKind → Event → GovernedStart
governed_identity kind e =
    let p = e.payload in
    record {
      operation_id = get_or e.operation_id "";
      operation_kind = kind;
      tool_call_id = non_empty e.tool_call_id;
      grant_id = get_or p.budget_grant_id "";
      reservation_id = get_or p.budget_reservation_id "";
      execution_attempt_id = get_or p.execution_attempt_id "";
      bucket = get_or p.budget_bucket "";
      loop_id = get_or p.loop_id "";
      phase = get_or p.phase "";
      round = p.round;
      name = get_or p.name "";
      budget_soft_limit_warning_applied = p.budget_soft_limit_warning_applied;
      operation_fingerprint = non_empty p.operation_fingerprint;
      operation_fingerprint_version =
          if truthy p.operation_fingerprint
          then some (get_or p.operation_fingerprint_version "undefined")
          else none;
      tool_batch_size = p.tool_batch_size;
      tool_batch_index = if is_some p.tool_batch_size then some p.tool_batch_index else none;
      loop_guard_warning_applied = p.loop_guard_warning_applied;
      loop_guard_block_result_applied = p.loop_guard_block_result_applied;
    }

unfoldable pub check_identity : Execution → GovernedStart → Result (Option GovernedStart)
check_identity x i = do
  throw_if
      (not (is_uuid i.grant_id)
        || not (is_uuid i.reservation_id)
        || not (is_uuid i.execution_attempt_id)
        || is_tool_call i.operation_kind && not (is_uuid (get_or i.tool_call_id ""))
        || x.attempt_id != some i.execution_attempt_id)
      (conflict "Top-level operation has no valid budget reservation")
  ok (some i)

-- `ok none`: the event is no start that a budget governs.
unfoldable pub governed_budget_start : Execution → Event → Result (Option GovernedStart)
unfolding is_governed governed_identity check_identity
governed_budget_start x e = elim e.payload.operation_kind [
  | none ↦ ok none
  | some kind ↦
      if e.event_type == operation_started && is_governed x kind e.payload
      then check_identity x (governed_identity kind e)
      else ok none
]

abbrev pub bucket_name : Bucket → String
bucket_name normal = "normal"
bucket_name repair = "repair"
bucket_name closing = "closing"
bucket_name tool = "tool"

-- A number of the reservation against one that was read by `Number`.
abbrev same_index : Option ℕ → Option (Option ℕ) → Bool
same_index none none = true
same_index (some n) (some (some k)) = n == k
same_index _ _ = false

unfoldable pub identity_matches : GovernedStart → GrantState → Reservation → Bool
identity_matches i g r =
    g.grant.loop_id == i.loop_id
    && status_eq r.status reserved
    && r.grant_id == i.grant_id
    && r.reservation_id == i.reservation_id
    && r.execution_attempt_id == i.execution_attempt_id
    && r.operation_kind == some i.operation_kind
    && r.tool_call_id == i.tool_call_id
    && bucket_name r.bucket == i.bucket
    && r.phase == i.phase
    && some r.round == i.round
    && r.name == i.name
    && r.operation_fingerprint == i.operation_fingerprint
    && r.operation_fingerprint_version == i.operation_fingerprint_version
    && r.tool_batch_size == i.tool_batch_size
    && same_index r.tool_batch_index i.tool_batch_index

abbrev pub bool_ne : Bool → Bool → Bool
bool_ne true b = not b
bool_ne false b = b

-- A normal inference must carry what is pending to the model, and only that.
unfoldable pub check_warnings : GovernedStart → GrantState → GuardState → Result (Unit {0})
check_warnings i g guard =
    let normal_inference = not (is_tool_call i.operation_kind) && i.bucket == "normal" in
    do
      throw_if
          (bool_ne i.budget_soft_limit_warning_applied
            (normal_inference && is_true g.usage.normal.soft_limit_warning_pending))
          (conflict "Normal inference soft-limit warning does not match the durable budget state")
      throw_if (bool_ne i.loop_guard_warning_applied (normal_inference && guard.warning_pending))
          (conflict "Loop guard warning does not match the durable progress state")
      throw_if
          (bool_ne i.loop_guard_block_result_applied
            (normal_inference && guard.block_result_pending))
          (conflict "Loop guard block result does not match the durable progress state")

invalid : Result (Unit {0})
invalid = err (conflict "Top-level budget reservation is invalid or consumed")

unfoldable pub check_reservation :
    GovernedStart → GuardState → Option GrantState → Option Reservation → Result (Unit {0})
unfolding identity_matches check_warnings invalid
check_reservation i guard (some g) (some r) =
    if identity_matches i g r then check_warnings i g guard else invalid
check_reservation i guard _ _ = invalid

unfoldable pub assert_budget_projection :
    GovernedStart → Option Budget → GuardState → Result (Unit {0})
unfolding check_reservation
assert_budget_projection i none guard = invalid
assert_budget_projection i (some b) guard =
    check_reservation i guard (lookup i.grant_id b.grants) (lookup i.operation_id b.reservations)
