-- ===== src/Execution/Progress/BudgetEvents.antt =====
-- What the budget events do to the ledger: `budgetUsage`, `ensureBudget`, `applyBudgetEvent`,
-- `consumeBudgetReservation` and `exactToolRepeatGuardSnapshot` of
-- src/execution/execution-progress.ts.
use documents_backend.Common.{
  ℕ, ◌+◌, ◌-◌, String, Bool, true, false, Option, none, some, [], ◌==◌, eq_string, if◌then◌else◌,
  is_true, truthy, get_or,
}
use documents_backend.Common.Dict.{Dict, lookup, insert, adjust, insert_new}
use documents_backend.Execution.Types.{
  inference, Bucket, normal, repair, closing, tool, eq_bucket, eq_kind, status_eq, reserved,
  BudgetUsage, Grant, Reservation, Usages, GrantState, Budget, SoftLimitSignal, GuardAction, warn,
  block, terminate, GuardSignal, GuardState, Ledger,
}
use documents_backend.Execution.Events.{
  PayloadKind, budget_grant, budget_soft_limit_reached, loop_guard_triggered, budget_reservation,
  progress_reported, eq_type, Payload, Event,
}

-- `budgetUsage(granted, softLimit, tracksWarning)`.
unfoldable pub budget_usage : ℕ → Option ℕ → Bool → BudgetUsage
budget_usage granted soft_limit tracks_warning = record {
  granted = granted;
  reserved = 0;
  consumed = 0;
  available = granted;
  soft_limit = soft_limit;
  soft_limit_reached = elim soft_limit [ none ↦ none | some _ ↦ some false ];
  soft_limit_reached_at = none;
  soft_limit_triggering_operation_id = none;
  soft_limit_warning_pending = elim soft_limit [
    | none ↦ none
    | some _ ↦ if tracks_warning then some false else none
  ];
}

abbrev pub usage_of : Bucket → Usages → BudgetUsage
usage_of normal u = u.normal
usage_of repair u = u.repair
usage_of closing u = u.closing
usage_of tool u = u.tool

abbrev pub adjust_usages : Bucket → (BudgetUsage → BudgetUsage) → Usages → Usages
adjust_usages normal f u = record u { normal = f u.normal }
adjust_usages repair f u = record u { repair = f u.repair }
adjust_usages closing f u = record u { closing = f u.closing }
adjust_usages tool f u = record u { tool = f u.tool }

abbrev pub adjust_grant : Bucket → (BudgetUsage → BudgetUsage) → GrantState → GrantState
adjust_grant b f g = record g { usage = adjust_usages b f g.usage }

-- The entry of a new grant, with nothing used.
unfoldable pub grant_state : Grant → GrantState
unfolding budget_usage
grant_state g = record {
  grant = g;
  usage = record {
    normal =
        budget_usage g.effective_policy.normal g.effective_policy.normal_inference_soft_limit true;
    repair = budget_usage g.effective_policy.repair none false;
    closing = budget_usage g.effective_policy.closing none false;
    tool = budget_usage g.effective_policy.tool_calls g.effective_policy.tool_call_soft_limit false;
  };
}

-- `ledger.operationBudget ??= { grants: {}, reservations: {} }`.
abbrev pub ensure_budget : Ledger → Budget
ensure_budget l = get_or l.operation_budget (record { grants = []; reservations = [] })

unfoldable pub apply_grant : Grant → Budget → Budget
unfolding grant_state
apply_grant g b = record b { grants = insert_new g.grant_id (grant_state g) b.grants }

-- Only the first signal of a bucket counts.
unfoldable pub mark_soft_limit : SoftLimitSignal → BudgetUsage → BudgetUsage
mark_soft_limit s u = if is_true u.soft_limit_reached then u else record u {
  soft_limit = some s.soft_limit;
  soft_limit_reached = some true;
  soft_limit_reached_at = some s.decided_at;
  soft_limit_triggering_operation_id = some s.triggering_operation_id;
  soft_limit_warning_pending =
      if s.bucket == normal then some true else u.soft_limit_warning_pending;
}

unfoldable pub apply_soft_limit : SoftLimitSignal → Budget → Budget
unfolding mark_soft_limit
apply_soft_limit s b = record b {
  grants = adjust s.grant_id (adjust_grant s.bucket (mark_soft_limit s)) b.grants;
}

unfoldable pub warned : GuardSignal → GuardState
warned s = record {
  detections = 1;
  warning_issued = true;
  warning_pending = true;
  blocks = 0;
  previous_operation_id = some s.previous_operation_id;
  triggering_operation_id = some s.triggering_operation_id;
  operation_fingerprint = s.operation_fingerprint;
  operation_fingerprint_version = s.operation_fingerprint_version;
  warning_applied_to_operation_id = none;
  block_result_pending = false;
  block_result_applied_to_operation_id = none;
  last_blocked_operation_id = none;
  last_blocked_previous_operation_id = none;
  result_fingerprint = none;
  terminations = 0;
  last_terminated_operation_id = none;
}

unfoldable pub mark_terminated : GuardSignal → GuardState → GuardState
mark_terminated s g =
    if truthy g.warning_applied_to_operation_id
    then if truthy g.block_result_applied_to_operation_id
      then record g {
        detections = g.detections + 1;
        terminations = g.terminations + 1;
        last_terminated_operation_id = some s.triggering_operation_id;
      }
      else record g { detections = g.detections + 1 }
    else g

unfoldable pub mark_blocked : GuardSignal → GuardState → GuardState
mark_blocked s g =
    if truthy g.warning_applied_to_operation_id
    then record g {
      detections = g.detections + 1;
      blocks = g.blocks + 1;
      block_result_pending = true;
      last_blocked_operation_id = some s.triggering_operation_id;
      last_blocked_previous_operation_id = some s.previous_operation_id;
      result_fingerprint = s.result_fingerprint;
    }
    else g

apply_action : GuardAction → GuardSignal → Dict GuardState → Dict GuardState
apply_action warn s guards = insert_new s.grant_id (warned s) guards
apply_action terminate s guards = adjust s.grant_id (mark_terminated s) guards
apply_action block s guards = adjust s.grant_id (mark_blocked s) guards

unfoldable pub apply_guard_signal : GuardSignal → Ledger → Ledger
unfolding apply_action warned mark_terminated mark_blocked
apply_guard_signal s l = record l {
  loop_guards = some (apply_action s.action s (get_or l.loop_guards []));
}

-- `usage.reserved += 1`, with `available` recomputed.
unfoldable pub reserve_one : BudgetUsage → BudgetUsage
reserve_one u = record u {
  reserved = u.reserved + 1;
  available = u.granted - (u.reserved + 1) - u.consumed;
}

-- A legacy reservation without a kind is one of an inference.
abbrev pub normalized : Reservation → Reservation
normalized r = record r { operation_kind = some (get_or r.operation_kind inference) }

-- The reservation is added unless the operation has one.
abbrev pub add_reservation : Option Reservation → Reservation → Budget → Budget
add_reservation (some _) r b = b
add_reservation none r b = record {
  grants =
      if status_eq r.status reserved
      then adjust r.grant_id (adjust_grant r.bucket reserve_one) b.grants
      else b.grants;
  reservations = insert r.operation_id (normalized r) b.reservations;
}

unfoldable pub apply_reservation : Reservation → Budget → Budget
unfolding reserve_one
apply_reservation r b = add_reservation (lookup r.operation_id b.reservations) r b

-- Each branch of `applyBudgetEvent` first leaves if its record or its key is missing.
abbrev pub on_budget {ℓ} :
    {A : Type ℓ} → (A → String) → (A → Budget → Budget) → Option A → Ledger → Ledger
on_budget key f none l = l
on_budget key f (some a) l =
    if key a == "" then l else record l { operation_budget = some (f a (ensure_budget l)) }

unfoldable pub on_guard : Option GuardSignal → Ledger → Ledger
unfolding apply_guard_signal
on_guard none l = l
on_guard (some s) l = if s.grant_id == "" then l else apply_guard_signal s l

-- The result says whether the event was a budget event.
unfoldable pub by_kind : PayloadKind → Payload → Ledger → Ledger × Bool
unfolding on_guard
by_kind budget_grant p l = (on_budget (λ g. g.grant_id) apply_grant p.grant l, true)
by_kind budget_soft_limit_reached p l =
    (on_budget (λ s. s.grant_id) apply_soft_limit p.signal l, true)
by_kind loop_guard_triggered p l = (on_guard p.loop_guard_signal l, true)
by_kind budget_reservation p l =
    (on_budget (λ r. r.operation_id) apply_reservation p.reservation l, true)
by_kind _ p l = (l, false)

unfoldable pub apply_budget_event : Ledger → Event → Ledger × Bool
unfolding by_kind
apply_budget_event l e =
    if e.event_type == progress_reported then by_kind e.payload.kind e.payload l else (l, false)
