-- ===== src/Execution/Progress/Counters.antt =====
-- Counters and token totals of the ledger: `counter`, `tokenUsage`, `recordStarted`,
-- `recordFinished`, `consumeTokens` of src/execution/execution-progress.ts.
use documents_backend.Common.{ℕ, ◌+◌, ◌-◌, Bool, true, false, Option, none, some, if◌then◌else◌}
use documents_backend.Execution.Types.{
  OperationKind, inference, tool_call, ProgressCounter, TokenUsage, Operations,
}

abbrev pub counter : ProgressCounter
counter = record { started = 0; finished = 0; unfinished = 0; failed = 0 }

abbrev pub token_usage : TokenUsage
token_usage = record { known = true; total = 0; unknown_operations = 0 }

-- One round of the loop of `recordStarted`.
unfoldable pub record_started : ProgressCounter → ProgressCounter
record_started c = record c { started = c.started + 1; unfinished = c.unfinished + 1 }

-- One round of the loop of `recordFinished`; `Math.max(0, n - 1)` is the truncated `n - 1`.
unfoldable pub record_finished : Bool → ProgressCounter → ProgressCounter
record_finished failed c = record c {
  finished = c.finished + 1;
  unfinished = c.unfinished - 1;
  failed = if failed then c.failed + 1 else c.failed;
}

-- `none` is a value that is no integer from 0.
unfoldable pub consume_tokens : TokenUsage → Option ℕ → TokenUsage
consume_tokens u (some n) = record u { total = u.total + n }
consume_tokens u none = record u { known = false; unknown_operations = u.unknown_operations + 1 }

-- `operations[kind]`, read and changed in place.
abbrev pub operation_counter : OperationKind → Operations → ProgressCounter
operation_counter inference o = o.inference
operation_counter tool_call o = o.tool_call

abbrev pub adjust_operations :
    OperationKind → (ProgressCounter → ProgressCounter) → Operations → Operations
adjust_operations inference f o = record o { inference = f o.inference }
adjust_operations tool_call f o = record o { tool_call = f o.tool_call }
