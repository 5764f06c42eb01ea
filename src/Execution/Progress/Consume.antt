-- ===== src/Execution/Progress/Consume.antt =====
-- A started operation consumes its reservation: `consumeBudgetReservation` and
-- `exactToolRepeatGuardSnapshot` of src/execution/execution-progress.ts.
use mathlib.Core.Option
use documents_backend.Common.{
  ◌+◌, ◌-◌, String, Bool, true, false, ◌≡◌, arith, ◌&&◌, Option, none, some, [], ◌==◌, eq_option,
  if◌then◌else◌, get_or,
}
use documents_backend.Common.Dict.{lookup, adjust}
use documents_backend.Execution.Types.{
  OperationKind, normal, eq_bucket, eq_kind, status_eq, reserved, consumed, BudgetUsage,
  Reservation, Budget, GuardState, Ledger,
}
use documents_backend.Execution.Events.{operation_started, eq_type, Payload, Event}
use documents_backend.Execution.Progress.BudgetEvents.{adjust_grant}

-- One reserved unit becomes a consumed one. The flag is `budgetSoftLimitWarningApplied`, for the
-- bucket `normal`.
unfoldable pub consume_one : Bool → BudgetUsage → BudgetUsage
consume_one warning_applied u = record u {
  reserved = u.reserved - 1;
  consumed = u.consumed + 1;
  available = u.granted - (u.reserved - 1) - (u.consumed + 1);
  soft_limit_warning_pending = if warning_applied then some false else u.soft_limit_warning_pending;
}

-- The started inference carried the warning, or the result of a block, to the model.
unfoldable pub acknowledge_warning : String → GuardState → GuardState
acknowledge_warning operation_id g =
    if g.warning_pending
    then record g { warning_pending = false; warning_applied_to_operation_id = some operation_id }
    else g

unfoldable pub acknowledge_block : String → GuardState → GuardState
acknowledge_block operation_id g =
    if g.block_result_pending
    then record g {
      block_result_pending = false;
      block_result_applied_to_operation_id = some operation_id;
    }
    else g

unfoldable pub acknowledge : String → Payload → GuardState → GuardState
unfolding acknowledge_warning acknowledge_block
acknowledge operation_id p g =
    let g' = if p.loop_guard_warning_applied then acknowledge_warning operation_id g else g in
    if p.loop_guard_block_result_applied then acknowledge_block operation_id g' else g'

unfoldable pub consume_in_budget : String → Reservation → Bool → Budget → Budget
unfolding consume_one
consume_in_budget operation_id r warning_applied b = record {
  grants =
      adjust r.grant_id
        (adjust_grant r.bucket (consume_one (r.bucket == normal && warning_applied))) b.grants;
  reservations = adjust operation_id (λ x. record x { status = consumed }) b.reservations;
}

-- The reservation that an operation of this kind may consume: one that is still `reserved`, of the
-- same kind, under a grant that the ledger knows.
unfoldable pub consumable : String → OperationKind → Budget → Option Reservation
consumable operation_id kind b = elim (lookup operation_id b.reservations) [
  | none ↦ none
  | some r ↦
      if status_eq r.status reserved && r.operation_kind == some kind
      then elim (lookup r.grant_id b.grants) [ none ↦ none | some _ ↦ some r ]
      else none
]

-- What is consumed is an open reservation of the operation.
pub consumable_sound :
    (operation_id : String) (kind : OperationKind) (b : Budget) {r : Reservation}
    → consumable operation_id kind b ≡ some r
    → (lookup operation_id b.reservations ≡ some r) × (status_eq r.status reserved ≡ true)
unfolding consumable
consumable_sound operation_id kind b h = ground arith

unfoldable pub consume_known : String → Payload → Budget → Ledger → Option Reservation → Ledger
unfolding consume_in_budget acknowledge
consume_known operation_id p b l none = l
consume_known operation_id p b l (some r) = record l {
  operation_budget = some (consume_in_budget operation_id r p.budget_soft_limit_warning_applied b);
  loop_guards =
      if r.bucket == normal
      then Option.map (adjust r.grant_id (acknowledge operation_id p)) l.loop_guards
      else l.loop_guards;
}

unfoldable pub consume_start : String → OperationKind → Payload → Option Budget → Ledger → Ledger
unfolding consume_known consumable
consume_start operation_id kind p none l = l
consume_start operation_id kind p (some b) l =
    consume_known operation_id p b l (consumable operation_id kind b)

unfoldable pub consume_operation : Option OperationKind → Event → Ledger → Ledger
unfolding consume_start
consume_operation none e l = l
consume_operation (some kind) e l =
    consume_start (get_or e.operation_id "") kind e.payload l.operation_budget l

unfoldable pub consume_budget_reservation : Ledger → Event → Ledger
unfolding consume_operation
consume_budget_reservation l e =
    if e.event_type == operation_started then consume_operation e.payload.operation_kind e l else l

-- `exactToolRepeatGuardSnapshot`: the state of a grant that has seen no repeat is all zero.
abbrev pub no_detections : GuardState
no_detections = record {
  detections = 0;
  warning_issued = false;
  warning_pending = false;
  blocks = 0;
  previous_operation_id = none;
  triggering_operation_id = none;
  operation_fingerprint = none;
  operation_fingerprint_version = none;
  warning_applied_to_operation_id = none;
  block_result_pending = false;
  block_result_applied_to_operation_id = none;
  last_blocked_operation_id = none;
  last_blocked_previous_operation_id = none;
  result_fingerprint = none;
  terminations = 0;
  last_terminated_operation_id = none;
}

unfoldable pub guard_snapshot : Ledger → String → GuardState
guard_snapshot l grant_id = get_or (lookup grant_id (get_or l.loop_guards [])) no_detections
