-- ===== src/Execution/Service/Store.antt =====
-- What a transaction on one root execution reads and writes: the executions under the root, and
-- the root's event log in the order of `sequence` (src/execution/execution.service.ts).
use documents_backend.Common.{
  ℕ, ◌+◌, max, String, false, ◌&&◌, Option, none, some, List, [], ◌∷◌, map, find, ◌==◌, eq_string,
  get_or, if◌then◌else◌, Result, not_found, ok, err,
}
use documents_backend.Execution.Types.{BudgetUsage, GrantState}
use documents_backend.Execution.Events.{
  progress_reported, other_kind, other_status, Payload, Event, Row,
}
use documents_backend.Execution.Entity.{Execution}
use documents_backend.Execution.Progress.Projection.{project}

pub record Store : Type 0 where
  pub executions : List Execution
  pub rows : List Row

-- The values of `randomUUID()` and of the clock in one transaction.
pub record Fresh : Type 0 where
  pub decision_id : String
  pub event_id : String
  pub soft_limit_event_id : String
  pub guard_event_id : String
  pub now : String

-- `findOne({ where: { executionId: root, rootExecutionId: root }, lock })`.
unfoldable pub find_root : String → List Execution → Result Execution
find_root root xs = elim (find (λ x. x.execution_id == root && x.root_execution_id == root) xs) [
  | none ↦ err (not_found "Execution not found")
  | some x ↦ ok x
]

-- `executionRepo.save(execution)`.
unfoldable pub save : Execution → List Execution → List Execution
save x [] = []
save x (y ∷ ys) = if y.execution_id == x.execution_id then x ∷ ys else y ∷ save x ys

abbrev pub backend : String
backend = "documents-backend"

-- `process.env.HOSTNAME ?? 'backend'`, where the variable is not set; nothing reads it back.
abbrev pub instance : String
instance = "backend"

-- `Math.max(least, ...rows of this backend)`.
unfoldable pub max_producer_sequence : ℕ → List Row → ℕ
max_producer_sequence least [] = least
max_producer_sequence least (row ∷ rows) =
    max_producer_sequence
      (if row.producer_component == backend then max least row.producer_sequence else least) rows

-- `nextBackendProducerSequence`.
unfoldable pub next_producer_sequence : List Row → ℕ
unfolding max_producer_sequence
next_producer_sequence rows = max_producer_sequence 1 rows + 1

abbrev pub empty_payload : Payload
empty_payload = record {
  kind = other_kind;
  grant = none;
  signal = none;
  loop_guard_signal = none;
  reservation = none;
  policy = none;
  operation_kind = none;
  phase = none;
  name = none;
  round = none;
  loop_id = none;
  loop_kind = none;
  agent_name = none;
  max_rounds = none;
  execution_attempt_id = none;
  budget_grant_id = none;
  budget_reservation_id = none;
  budget_bucket = none;
  budget_soft_limit_warning_applied = false;
  loop_guard_warning_applied = false;
  loop_guard_block_result_applied = false;
  operation_fingerprint = none;
  operation_fingerprint_version = none;
  tool_batch_size = none;
  tool_batch_index = none;
  status = other_status;
  pending_confirmation = false;
  prompt_tokens = none;
  generated_tokens = none;
  content_hash = none;
  state_change = none;
}

-- The row that `appendBackendEvent` saves for a budget decision. The envelope's identity, security
-- and hash members are left out: no operation of this development reads them.
abbrev pub backend_row : String → ℕ → ℕ → Option String → Payload → Row
backend_row event_id producer_sequence sequence cause payload = record {
  event_id = event_id;
  producer_component = backend;
  producer_instance_id = instance;
  producer_sequence = producer_sequence;
  caused_by = cause;
  envelope = record {
    sequence = sequence;
    event_type = progress_reported;
    operation_id = none;
    attempt_id = none;
    tool_call_id = none;
    payload = payload;
  };
}

abbrev pub envelopes : List Row → List Event
envelopes rows = map (λ row. row.envelope) rows

-- `refreshProgressProjection`: the stored projection is that of the whole log.
unfoldable pub refresh : List Row → Execution → Execution
refresh rows x = record x {
  progress_policy = (project (envelopes rows)).policy;
  progress_ledger = some (project (envelopes rows)).ledger;
}

pub record Snapshot : Type 0 where
  pub normal : BudgetUsage
  pub tool : BudgetUsage

-- `operationBudgetSnapshot`.
unfoldable pub snapshot : GrantState → Snapshot
snapshot g = record {
  normal = record (g.usage.normal) {
    soft_limit = some (get_or g.usage.normal.soft_limit 0);
    soft_limit_reached = some (get_or g.usage.normal.soft_limit_reached false);
    soft_limit_warning_pending = some (get_or g.usage.normal.soft_limit_warning_pending false);
  };
  tool = record (g.usage.tool) {
    soft_limit = some (get_or g.usage.tool.soft_limit 0);
    soft_limit_reached = some (get_or g.usage.tool.soft_limit_reached false);
  };
}
