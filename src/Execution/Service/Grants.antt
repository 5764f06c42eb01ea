-- ===== src/Execution/Service/Grants.antt =====
-- `requestProgressGrant` of src/execution/execution.service.ts, with the limits it reads from the
-- configuration by `progressLimit`.
use documents_backend.Common.{
  ℕ, ◌+◌, max, ltb, String, Bool, true, false, not, ◌&&◌, Option, none, some, [], ◌∷◌, ◌++◌, find,
  ◌==◌, eq_nat, eq_string, eq_option, Result, ok, conflict, present, throw_if, ◌>>=◌, ◌>>◌,
}
use documents_backend.Common.Dict.{Dict, lookup}
use documents_backend.Execution.Types.{GrantPolicy, Grant, GrantState, GuardState, Ledger}
use documents_backend.Execution.Events.{budget_grant, Row}
use documents_backend.Execution.Entity.{Execution}
use documents_backend.Execution.Progress.BudgetEvents.{ensure_budget}
use documents_backend.Execution.Progress.Consume.{guard_snapshot}
use documents_backend.Execution.Progress.Projection.{project}
use documents_backend.Execution.Budget.Requests.{
  Number, nat, RawGrantRequest, GrantRequest, validate_progress_grant_request,
}
use documents_backend.Execution.Budget.Policy.{
  Limits, resolve_effective_policy, stored_policy, create_grant,
}
use documents_backend.Execution.Budget.Checks.{
  assert_active_attempt, assert_grant_scope, without_grant_usage,
}
use documents_backend.Execution.Service.Store.{
  Store, Fresh, find_root, save, next_producer_sequence, empty_payload, backend_row, envelopes,
  refresh, Snapshot, snapshot,
}

-- The configuration, its texts read by `Number`.
abbrev pub Config : Type 0
Config = String → Option Number

abbrev natural_or : ℕ → Option Number → ℕ
natural_or fallback (some (nat n)) = n
natural_or fallback _ = fallback

-- `progressLimit`.
unfoldable pub progress_limit : Config → String → ℕ → ℕ
progress_limit config name fallback = natural_or fallback (config name)

unfoldable pub limits : Config → Limits
unfolding progress_limit
limits c = record {
  normal = max 1 (progress_limit c "PROGRESS_CHAT_MAX_NORMAL_INFERENCES" 3);
  normal_inference_soft_limit = progress_limit c "PROGRESS_CHAT_NORMAL_INFERENCE_SOFT_LIMIT" 2;
  repair = progress_limit c "PROGRESS_CHAT_MAX_OUTPUT_REPAIRS" 1;
  closing = progress_limit c "PROGRESS_CHAT_CLOSING_INFERENCES" 1;
  max_tokens_per_inference = max 1 (progress_limit c "PROGRESS_CHAT_MAX_TOKENS_PER_INFERENCE" 4096);
  tool_calls = progress_limit c "PROGRESS_CHAT_MAX_TOOL_CALLS" 6;
  tool_call_soft_limit = progress_limit c "PROGRESS_CHAT_TOOL_CALL_SOFT_LIMIT" 4;
  exact_tool_repeat_warning = ltb 0 (progress_limit c "PROGRESS_CHAT_EXACT_TOOL_REPEAT_WARNING" 1);
  exact_tool_repeat_block_after_warning =
      ltb 0 (progress_limit c "PROGRESS_CHAT_EXACT_TOOL_REPEAT_BLOCK_AFTER_WARNING" 1);
  exact_tool_repeat_terminate_after_block =
      ltb 0 (progress_limit c "PROGRESS_CHAT_EXACT_TOOL_REPEAT_TERMINATE_AFTER_BLOCK" 1);
}

pub record GrantReply : Type 0 where
  pub grant : Grant
  pub budget_state : Snapshot
  pub guard_state : GuardState
  pub event_id : String

abbrev if_some {ℓ κ} : {A : Type ℓ} {B : Type κ} → Option A → Option B → Option B
if_some none p = none
if_some (some _) p = p

-- The request without the fields that the existing grant lacks.
comparable : GrantPolicy → GrantPolicy → GrantPolicy
comparable old p = record p {
  normal_inference_soft_limit =
      if_some old.normal_inference_soft_limit p.normal_inference_soft_limit;
  tool_call_soft_limit = if_some old.tool_call_soft_limit p.tool_call_soft_limit;
  exact_tool_repeat_warning = if_some old.exact_tool_repeat_warning p.exact_tool_repeat_warning;
  exact_tool_repeat_block_after_warning =
      if_some old.exact_tool_repeat_block_after_warning p.exact_tool_repeat_block_after_warning;
  exact_tool_repeat_terminate_after_block =
      if_some old.exact_tool_repeat_terminate_after_block p.exact_tool_repeat_terminate_after_block;
}

abbrev flag_eq : Option Bool → Option Bool → Bool
flag_eq none none = true
flag_eq (some true) (some b) = b
flag_eq (some false) (some b) = not b
flag_eq _ _ = false

-- Equal canonical JSON: the same fields with the same values.
same_policy : GrantPolicy → GrantPolicy → Bool
same_policy p q =
    p.normal == q.normal
    && p.normal_inference_soft_limit == q.normal_inference_soft_limit
    && p.repair == q.repair
    && p.closing == q.closing
    && p.max_tokens_per_inference == q.max_tokens_per_inference
    && p.tool_calls == q.tool_calls
    && p.tool_call_soft_limit == q.tool_call_soft_limit
    && flag_eq p.exact_tool_repeat_warning q.exact_tool_repeat_warning
    && flag_eq p.exact_tool_repeat_block_after_warning q.exact_tool_repeat_block_after_warning
    && flag_eq p.exact_tool_repeat_terminate_after_block q.exact_tool_repeat_terminate_after_block

unfoldable pub is_compatible : Grant → GrantRequest → Bool
unfolding comparable same_policy
is_compatible old r =
    old.loop_id == r.loop_id
    && same_policy old.requested_policy
        (comparable old.requested_policy (stored_policy r.requested_policy))

abbrev is_grant_row : String → Row → Bool
is_grant_row grant_id row = elim row.envelope.payload.grant [
  | none ↦ false
  | some g ↦ g.grant_id == grant_id
]

-- `Object.values(grants)[0]`.
abbrev first_grant : Dict GrantState → Option GrantState
first_grant [] = none
first_grant ((k, g) ∷ rest) = some g

-- A loop has one grant: a repeated request gets the one that exists.
unfoldable pub reuse_grant :
    GrantRequest → Store → Ledger → GrantState → Result (GrantReply × Store)
unfolding is_compatible
reuse_grant r s l old = do
  throw_if (not (is_compatible old.grant r))
      (conflict "An incompatible progress grant already exists")
  row ← present (find (is_grant_row old.grant.grant_id) s.rows)
  ok (
    record {
      grant = without_grant_usage old.grant;
      budget_state = snapshot old;
      guard_state = guard_snapshot l old.grant.grant_id;
      event_id = row.event_id;
    },
    s,
  )

unfoldable pub grant_row : Fresh → Store → Execution → Grant → Row
grant_row fresh s x g =
    backend_row fresh.event_id (next_producer_sequence s.rows) (x.last_sequence + 1) x.last_event_id
      (record empty_payload { kind = budget_grant; grant = some g })

unfoldable pub grant_store : Fresh → Store → Execution → Grant → Store
grant_store fresh s x g =
    let rows = s.rows ++ grant_row fresh s x g ∷ [] in
    let x' =
      refresh rows
        (record x { last_sequence = x.last_sequence + 1; last_event_id = some fresh.event_id }) in
    record { executions = save x' s.executions; rows = rows }

unfoldable pub grant_reply : Fresh → Grant → Ledger → GrantState → GrantReply
grant_reply fresh g l projected = record {
  grant = g;
  budget_state = snapshot projected;
  guard_state = guard_snapshot l g.grant_id;
  event_id = fresh.event_id;
}

unfoldable pub append_grant : Fresh → Store → Execution → Grant → Result (GrantReply × Store)
append_grant fresh s x g =
    let s' = grant_store fresh s x g in
    let ledger = (project (envelopes s'.rows)).ledger in
    present (lookup g.grant_id (ensure_budget ledger).grants) >>= λ projected.
    ok (grant_reply fresh g ledger projected, s')

unfoldable pub grant_or_reuse :
    Fresh
    → Limits
    → GrantRequest
    → Store
    → Execution
    → Option GrantState
    → Result (GrantReply × Store)
grant_or_reuse fresh l r s x (some old) = reuse_grant r s (project (envelopes s.rows)).ledger old
grant_or_reuse fresh l r s x none =
    append_grant fresh s x
      (create_grant x r (resolve_effective_policy r.requested_policy l) fresh.decision_id fresh.now)

unfoldable pub request_progress_grant :
    Fresh → Config → String → RawGrantRequest → Store → Result (GrantReply × Store)
request_progress_grant fresh config root raw s = do
  r ← validate_progress_grant_request root raw
  x ← find_root root s.executions
  assert_active_attempt x r.execution_attempt_id
  assert_grant_scope x r
  grant_or_reuse fresh (limits config) r s x
      (first_grant (ensure_budget (project (envelopes s.rows)).ledger).grants)
