-- ===== src/Execution/Ingest/Loop.antt =====
-- One round of the loop of `acceptEvents`, and the loop (src/execution/execution.service.ts).
use documents_backend.Common.{
  ℕ, ◌+◌, ltb, String, not, ◌&&◌, ◌||◌, Option, none, some, List, [], ◌∷◌, ◌++◌, all, any, find,
  length, ◌==◌, eq_string, eq_nat, if◌then◌else◌, Result, ok, err, bad_request, conflict, throw_if,
  ◌>>=◌, ◌>>◌,
}
use documents_backend.Execution.Events.{Row}
use documents_backend.Execution.Entity.{Execution, is_terminal}
use documents_backend.Execution.Budget.Requests.{number}
use documents_backend.Execution.Service.Store.{Store, find_root, save, refresh}
use documents_backend.Execution.Lifecycle.Events.{
  validate_operation_lifecycle, validate_state_transition, materialize_state,
}
use documents_backend.Execution.Ingest.{
  Incoming, Surroundings, validate_incoming_event, validate_operation_budget_start, is_not_before,
  is_occupied, has_event, is_unknown_cause,
}

-- The variables of the loop. `root` is the object `execution`, which is saved after the loop.
pub record Loop : Type 0 where
  pub root : Execution
  pub executions : List Execution
  pub rows : List Row
  pub sequence : ℕ
  pub accepted : ℕ
  pub duplicates : ℕ

abbrev pub row_of : ℕ → Incoming → Row
row_of sequence i = record {
  event_id = i.event_id;
  producer_component = i.producer_component;
  producer_instance_id = i.producer_instance_id;
  producer_sequence = number i.producer_sequence;
  caused_by = i.caused_by;
  envelope = record (i.event) { sequence = sequence };
}

-- The event's execution with its new state: the root itself, or another one that is saved.
unfoldable pub append_event : Incoming → Execution → Loop → Loop
append_event i target l =
    let own = target.execution_id == l.root.execution_id in
    record {
      root =
          if own
          then record target { last_event_id = some i.event_id }
          else record (l.root) { last_event_id = some i.event_id };
      executions = if own then l.executions else save target l.executions;
      rows = l.rows ++ row_of (l.sequence + 1) i ∷ [];
      sequence = l.sequence + 1;
      accepted = l.accepted + 1;
      duplicates = l.duplicates;
    }

unfoldable pub accept_new : Surroundings → Incoming → Execution → Loop → Result Loop
accept_new w i target l = do
  throw_if (is_terminal l.root.status) (conflict "A terminal execution cannot accept new events")
  throw_if (any (is_occupied i) l.rows) (conflict "Producer sequence already belongs to another")
  throw_if (any (is_not_before i) l.rows) (conflict "producerSequence must be strictly monotonic")
  throw_if (is_unknown_cause i l.rows) (bad_request "Unknown causal event")
  throw_if (not (all w.has_artifact i.artifact_refs)) (bad_request "Unknown artifact reference")
  validate_operation_lifecycle l.rows i.event
  validate_operation_budget_start l.rows target i.event
  validate_state_transition target i.event
  changed ← materialize_state target i.event
  ok (append_event i changed l)

unfoldable pub accept_for : Surroundings → Incoming → Option Execution → Loop → Result Loop
accept_for w i none l = err (bad_request "Unknown execution in root")
accept_for w i (some target) l =
    if has_event i.event_id l.rows
    then ok (record l { duplicates = l.duplicates + 1 })
    else if w.is_elsewhere i.event_id
    then err (conflict "Event identity conflict")
    else accept_new w i target l

-- The event's execution: the root itself, or another one under it.
unfoldable pub target_of : Incoming → Loop → Option Execution
target_of i l =
    if i.execution_id == l.root.execution_id
    then some l.root
    else find (λ x. x.execution_id == i.execution_id && x.root_execution_id == l.root.execution_id)
        l.executions

unfoldable pub accept_one : Surroundings → Incoming → Loop → Result Loop
accept_one w i l = validate_incoming_event w l.root i >> accept_for w i (target_of i l) l

unfoldable pub accept_all : Surroundings → List Incoming → Loop → Result Loop
accept_all w [] l = ok l
accept_all w (i ∷ is) l = accept_one w i l >>= accept_all w is

pub record AcceptReply : Type 0 where
  pub accepted : ℕ
  pub duplicates : ℕ
  pub last_sequence : ℕ

unfoldable pub accepted_store : Loop → Store
accepted_store l = record {
  executions = save (refresh l.rows (record (l.root) { last_sequence = l.sequence })) l.executions;
  rows = l.rows;
}

abbrev pub accepted_reply : Loop → AcceptReply
accepted_reply l = record {
  accepted = l.accepted;
  duplicates = l.duplicates;
  last_sequence = l.sequence;
}

abbrev pub first_round : Execution → Store → Loop
first_round x s = record {
  root = x;
  executions = s.executions;
  rows = s.rows;
  sequence = x.last_sequence;
  accepted = 0;
  duplicates = 0;
}

unfoldable pub accept_events :
    Surroundings → String → List Incoming → Store → Result (AcceptReply × Store)
accept_events w root events s = do
  throw_if (length events == 0 || ltb 200 (length events))
      (bad_request "events must contain between 1 and 200 items")
  x ← find_root root s.executions
  l ← accept_all w events (first_round x s)
  ok (accepted_reply l, accepted_store l)
