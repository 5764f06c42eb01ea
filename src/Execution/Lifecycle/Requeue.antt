-- ===== src/Execution/Lifecycle/Requeue.antt =====
-- Executions whose worker has stopped its heartbeat: `requeueStaleExecutions` of
-- src/execution/execution.service.ts. The query for them is the caller's.
use documents_backend.Common.{
  ℕ, ◌+◌, leb, String, Bool, true, Option, none, some, List, [], ◌∷◌, if◌then◌else◌, Result, ok,
  ◌>>=◌,
}
use documents_backend.Execution.Entity.{Status, queued, failed, Execution}
use documents_backend.Execution.Service.Store.{Store, Fresh}
use documents_backend.Execution.Lifecycle.{UpdateOptions, update_status}

-- The attempt that was lost was the last one.
abbrev pub is_exhausted : Execution → Bool
is_exhausted x = leb x.max_attempts (x.retry_count + 1)

abbrev pub target : Execution → Status
target x = if is_exhausted x then failed else queued

abbrev pub requeue_options : Execution → UpdateOptions
requeue_options x = record {
  completion_reason = if is_exhausted x then some "attempts_exhausted" else none;
  expected_attempt_id = some x.attempt_id;
  increment_retry = true;
}

-- One round of the loop, on an execution as the query has read it.
unfoldable pub requeue : Fresh → String → Execution → Store → Result (Option Execution × Store)
requeue fresh message x s =
    update_status fresh x.execution_id (target x) message (requeue_options x) s

abbrev counted : Option Execution → ℕ → ℕ
counted none n = n
counted (some _) n = n + 1

-- The loop; each round has its own instant and identifiers.
unfoldable pub requeue_stale : String → List (Fresh × Execution) → Store → ℕ → Result (ℕ × Store)
requeue_stale message [] s recovered = ok (recovered, s)
requeue_stale message ((fresh, x) ∷ xs) s recovered = requeue fresh message x s >>= λ (updated, s').
    requeue_stale message xs s' (counted updated recovered)
