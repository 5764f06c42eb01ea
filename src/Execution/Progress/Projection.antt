-- ===== src/Execution/Progress/Projection.antt =====
-- `projectExecutionProgress` of src/execution/execution-progress.ts: one pass over the log.
use Prim.Native.String
use documents_backend.Common.{
  ltb, max, String, Bool, true, false, ◌&&◌, ◌||◌, Option, none, some, List, [], ◌∷◌, ◌==◌,
  eq_string, if◌then◌else◌, get_or, truthy, any,
}
use documents_backend.Common.Dict.{Dict, lookup, insert, adjust, insert_new}
use documents_backend.Execution.Types.{
  OperationKind, inference, tool_call, ProgressCounter, LoopEntry, complete, partial, Ledger,
}
use documents_backend.Execution.Events.{
  operation_started, operation_finished, policy_snapshot, progress_reported, failed, FinishStatus,
  eq_type, PolicySnapshot, PayloadKind, Payload, Event,
}
use documents_backend.Execution.Progress.Counters.{
  counter, token_usage, record_started, record_finished, consume_tokens, adjust_operations,
}
use documents_backend.Execution.Progress.BudgetEvents.{apply_budget_event}
use documents_backend.Execution.Progress.Consume.{consume_budget_reservation}

pub record Start : Type 0 where
  pub operation_kind : OperationKind
  pub phase : Option String
  pub loop_id : Option String

-- The variables of the loop.
pub record Projection : Type 0 where
  pub ledger : Ledger
  pub policy : Dict PolicySnapshot
  pub starts : Dict Start

abbrev pub initial_ledger : Ledger
initial_ledger = record {
  last_sequence = 0;
  operations = record { inference = counter; tool_call = counter };
  inference_phases = [];
  loops = [];
  prompt_tokens = token_usage;
  generated_tokens = token_usage;
  completeness = complete;
  operation_budget = none;
  loop_guards = none;
}

abbrev pub initial : Projection
initial = record { ledger = initial_ledger; policy = []; starts = [] }

unfoldable pub operation_key : Event → String
operation_key e = String.◌++◌ (get_or e.operation_id "") (String.◌++◌ ":" (get_or e.attempt_id ""))

abbrev inference_phase_names : List String
inference_phase_names =
    "direct_response" ∷ "agent_loop" ∷ "output_repair" ∷ "forced_finalization"
    ∷ "structured_output_repair" ∷ "memory_extraction" ∷ []

unfoldable pub inference_phase : Payload → String
inference_phase p =
    let explicit = get_or p.phase "" in
    let name = get_or p.name "" in
    if any (λ k. k == explicit) inference_phase_names
    then explicit
    else if name == "output_repair"
    then "output_repair"
    else if name == "forced_finalization"
    then "forced_finalization"
    else if name == "memory_extraction"
    then "memory_extraction"
    else if name == "structured_output_repair"
    then "structured_output_repair"
    else if name == "chat_with_tools"
    then "agent_loop"
    else "direct_response"

-- `x ? String(x) : undefined`.
abbrev non_empty : Option String → Option String
non_empty o = if truthy o then o else none

unfoldable pub start_of : OperationKind → Payload → Start
unfolding inference_phase
start_of kind p = record {
  operation_kind = kind;
  phase = elim kind [ inference ↦ some (inference_phase p) | tool_call ↦ none ];
  loop_id = non_empty p.loop_id;
}

new_loop : Payload → LoopEntry
new_loop p = record {
  agent_name = get_or p.agent_name "undefined";
  loop_kind = get_or p.loop_kind "undefined";
  max_rounds = p.max_rounds;
  operations = record { inference = counter; tool_call = counter };
  inference_phases = [];
}

-- `phases[phase] ??= counter()` and its change, if there is a phase.
abbrev pub touch_phase :
    (ProgressCounter → ProgressCounter)
    → Option String
    → Dict ProgressCounter
    → Dict ProgressCounter
touch_phase f none d = d
touch_phase f (some phase) d = adjust phase f (insert_new phase counter d)

touch_loop : Start → LoopEntry → LoopEntry
touch_loop s x = record x {
  operations = adjust_operations s.operation_kind record_started x.operations;
  inference_phases = touch_phase record_started s.phase x.inference_phases;
}

abbrev open_loop : Start → Payload → Dict LoopEntry → Dict LoopEntry
unfolding touch_loop new_loop
open_loop s p d = elim s.loop_id [
  | none ↦ d
  | some id ↦ adjust id (touch_loop s) (insert_new id (new_loop p) d)
]

unfoldable pub count_start : Start → Payload → Ledger → Ledger
unfolding touch_loop new_loop
count_start s p l = record l {
  operations = adjust_operations s.operation_kind record_started l.operations;
  inference_phases = touch_phase record_started s.phase l.inference_phases;
  loops = open_loop s p l.loops;
}

-- A change at a key that a start has left in the dictionary.
abbrev pub change_phase :
    (ProgressCounter → ProgressCounter)
    → Option String
    → Dict ProgressCounter
    → Dict ProgressCounter
change_phase f none d = d
change_phase f (some phase) d = adjust phase f d

finish_loop : Bool → Start → LoopEntry → LoopEntry
finish_loop is_failure s x = record x {
  operations = adjust_operations s.operation_kind (record_finished is_failure) x.operations;
  inference_phases = change_phase (record_finished is_failure) s.phase x.inference_phases;
}

unfoldable pub count_finish : Bool → Start → Ledger → Ledger
unfolding finish_loop
count_finish is_failure s l = record l {
  operations = adjust_operations s.operation_kind (record_finished is_failure) l.operations;
  inference_phases = change_phase (record_finished is_failure) s.phase l.inference_phases;
  loops = elim s.loop_id [
    | none ↦ l.loops
    | some id ↦ adjust id (finish_loop is_failure s) l.loops
  ];
}

-- Only inferences have token metrics.
unfoldable pub count_tokens : OperationKind → Payload → Ledger → Ledger
count_tokens tool_call p l = l
count_tokens inference p l = record l {
  prompt_tokens = consume_tokens l.prompt_tokens p.prompt_tokens;
  generated_tokens = consume_tokens l.generated_tokens p.generated_tokens;
}

abbrev pub is_failed : FinishStatus → Bool
is_failed failed = true
is_failed _ = false

unfoldable pub on_started : OperationKind → Event → Projection → Projection
unfolding start_of count_start
on_started kind e s =
    let start = start_of kind e.payload in
    record s {
      ledger = count_start start e.payload (consume_budget_reservation s.ledger e);
      starts = insert (operation_key e) start s.starts;
    }

unfoldable pub on_known_start : Option Start → Event → Projection → Projection
unfolding count_finish count_tokens
on_known_start none e s = s
on_known_start (some start) e s = record s {
  ledger =
      count_tokens start.operation_kind e.payload
        (count_finish (is_failed e.payload.status) start s.ledger);
}

unfoldable pub on_finished : Event → Projection → Projection
unfolding on_known_start
on_finished e s = on_known_start (lookup (operation_key e) s.starts) e s

unfoldable pub on_policy : Option PolicySnapshot → Projection → Projection
on_policy none s = s
on_policy (some p) s =
    if p.loop_id == "" then s else record s { policy = insert p.loop_id p s.policy }

abbrev pub is_policy : PayloadKind → Bool
is_policy policy_snapshot = true
is_policy _ = false

unfoldable pub on_operation : Option OperationKind → Event → Projection → Projection
unfolding on_started on_finished
on_operation none e s = s
on_operation (some kind) e s =
    if e.event_type == operation_started
    then on_started kind e s
    else if e.event_type == operation_finished
    then on_finished e s
    else s

-- The rest of a round, for what is not a budget event.
unfoldable pub on_event : Event → Projection → Projection
unfolding on_operation on_policy
on_event e s =
    if e.event_type == progress_reported && is_policy e.payload.kind
    then on_policy e.payload.policy s
    else on_operation e.payload.operation_kind e s

-- One round of the loop.
unfoldable pub step : Projection → Event → Projection
unfolding on_event
step s e =
    let l = record (s.ledger) { last_sequence = max s.ledger.last_sequence e.sequence } in
    let (l', was_budget) = apply_budget_event l e in
    let s' = record s { ledger = l' } in if was_budget then s' else on_event e s'

unfoldable pub steps : Projection → List Event → Projection
steps s [] = s
steps s (e ∷ es) = steps (step s e) es

pub record Progress : Type 0 where
  pub policy : Option (Dict PolicySnapshot)
  pub ledger : Ledger

unfoldable pub is_partial : Ledger → Bool
is_partial l = ltb 0 l.operations.inference.unfinished || ltb 0 l.operations.tool_call.unfinished

abbrev finish_policy : Dict PolicySnapshot → Option (Dict PolicySnapshot)
finish_policy [] = none
finish_policy d = some d

unfoldable pub finish : Projection → Progress
unfolding is_partial
finish s = record {
  policy = finish_policy s.policy;
  ledger = record (s.ledger) { completeness = if is_partial s.ledger then partial else complete };
}

unfoldable pub project : List Event → Progress
unfolding steps finish
project events = finish (steps initial events)
