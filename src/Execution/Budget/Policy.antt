-- ===== src/Execution/Budget/Policy.antt =====
-- The policy that a grant receives: `resolveEffectivePolicy` and `createOperationBudgetGrant` of
-- src/execution/inference-budget-policy.ts. All numbers are natural after validation, and
-- `normal - 1` is reached only where `1 < normal`.
use documents_backend.Common.{
  ℕ, ◌-◌, min, max, leb, String, Bool, ◌&&◌, ◌||◌, some, ◌==◌, eq_nat, is_true, if◌then◌else◌,
}
use documents_backend.Execution.Types.{GrantPolicy, Grant}
use documents_backend.Execution.Entity.{Execution}
use documents_backend.Execution.Budget.Requests.{RequestedPolicy, GrantRequest}

-- `OperationBudgetLimits`, from the configuration.
pub record Limits : Type 0 where
  pub normal : ℕ
  pub normal_inference_soft_limit : ℕ
  pub repair : ℕ
  pub closing : ℕ
  pub max_tokens_per_inference : ℕ
  pub tool_calls : ℕ
  pub tool_call_soft_limit : ℕ
  pub exact_tool_repeat_warning : Bool
  pub exact_tool_repeat_block_after_warning : Bool
  pub exact_tool_repeat_terminate_after_block : Bool

-- The soft limit under a hard limit: 0 is none, and else it lies below the hard limit.
unfoldable pub soft_limit : ℕ → ℕ → ℕ → ℕ
soft_limit hard requested configured =
    if leb hard 1 || requested == 0 || configured == 0
    then 0
    else max 1 (min (min requested configured) (hard - 1))

unfoldable pub resolve_effective_policy : RequestedPolicy → Limits → RequestedPolicy
unfolding soft_limit
resolve_effective_policy r l =
    let normal = min r.normal l.normal in
    let tool_calls = min r.tool_calls l.tool_calls in
    record {
      normal = normal;
      normal_inference_soft_limit =
          soft_limit normal r.normal_inference_soft_limit l.normal_inference_soft_limit;
      repair = min r.repair l.repair;
      closing = min r.closing l.closing;
      max_tokens_per_inference = min r.max_tokens_per_inference l.max_tokens_per_inference;
      tool_calls = tool_calls;
      tool_call_soft_limit = soft_limit tool_calls r.tool_call_soft_limit l.tool_call_soft_limit;
      exact_tool_repeat_warning =
          some (is_true r.exact_tool_repeat_warning && l.exact_tool_repeat_warning);
      exact_tool_repeat_block_after_warning = some (
          is_true r.exact_tool_repeat_warning
          && is_true r.exact_tool_repeat_block_after_warning
          && l.exact_tool_repeat_warning
          && l.exact_tool_repeat_block_after_warning);
      exact_tool_repeat_terminate_after_block = some (
          is_true r.exact_tool_repeat_warning
          && is_true r.exact_tool_repeat_block_after_warning
          && is_true r.exact_tool_repeat_terminate_after_block
          && l.exact_tool_repeat_warning
          && l.exact_tool_repeat_block_after_warning
          && l.exact_tool_repeat_terminate_after_block);
    }

-- A request's policy as a grant stores it.
abbrev pub stored_policy : RequestedPolicy → GrantPolicy
stored_policy p = record {
  normal = p.normal;
  normal_inference_soft_limit = some p.normal_inference_soft_limit;
  repair = p.repair;
  closing = p.closing;
  max_tokens_per_inference = p.max_tokens_per_inference;
  tool_calls = p.tool_calls;
  tool_call_soft_limit = some p.tool_call_soft_limit;
  exact_tool_repeat_warning = p.exact_tool_repeat_warning;
  exact_tool_repeat_block_after_warning = p.exact_tool_repeat_block_after_warning;
  exact_tool_repeat_terminate_after_block = p.exact_tool_repeat_terminate_after_block;
}

unfoldable pub create_grant : Execution → GrantRequest → RequestedPolicy → String → String → Grant
create_grant x r effective grant_id granted_at = record {
  grant_id = grant_id;
  execution_id = x.execution_id;
  turn_id = x.turn_id;
  loop_id = r.loop_id;
  execution_attempt_id = r.execution_attempt_id;
  requested_policy = stored_policy r.requested_policy;
  effective_policy = stored_policy effective;
  granted_at = granted_at;
}
