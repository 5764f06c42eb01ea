-- ===== src/Execution/Budget/Bounds.antt =====
-- What `resolveEffectivePolicy` of src/execution/inference-budget-policy.ts grants of a request.
use documents_backend.Common.{ℕ, ◌≤◌, ◌<◌, true, ◌≡◌, ◌⊎◌, some, arith, eq_nat}
use documents_backend.Execution.Budget.Requests.{RequestedPolicy}
use documents_backend.Execution.Budget.Policy.{Limits, soft_limit, resolve_effective_policy}

-- A soft limit is off, or a warning that comes before the hard limit and no later than asked.
abbrev pub IsSoftLimit : ℕ → ℕ → ℕ → ℕ → Type 0
IsSoftLimit hard requested configured soft =
    (soft ≡ 0) ⊎ ((1 ≤ soft) × (soft < hard) × (soft ≤ requested) × (soft ≤ configured))

soft_limit-IsSoftLimit :
    (hard requested configured : ℕ)
    → IsSoftLimit hard requested configured (soft_limit hard requested configured)
unfolding soft_limit
soft_limit-IsSoftLimit hard requested configured = ground arith

-- A stage of the repeat guard is on only if the stage before it is.
abbrev pub IsStaged : RequestedPolicy → Type 0
IsStaged p =
    (p.exact_tool_repeat_terminate_after_block ≡ some true
      → p.exact_tool_repeat_block_after_warning ≡ some true)
    × (p.exact_tool_repeat_block_after_warning ≡ some true
        → p.exact_tool_repeat_warning ≡ some true)

resolve_effective_policy-IsStaged :
    (r : RequestedPolicy) (l : Limits) → IsStaged (resolve_effective_policy r l)
unfolding resolve_effective_policy
resolve_effective_policy-IsStaged r l = (ground arith, ground arith)

-- The number is at most what is asked and at most what is allowed.
abbrev pub IsAtMost : ℕ → ℕ → ℕ → Type 0
IsAtMost n requested allowed = (n ≤ requested) × (n ≤ allowed)

-- The policy that a grant receives never exceeds the request or the configured limits in any of
-- its five numbers; each soft limit is 0, or at least 1, below the hard limit that it warns of and
-- at most the soft limits requested and configured; and each stage of the repeat guard is on only
-- if the stage before it is on.
pub resolve_effective_policy-IsAtMost :
    (r : RequestedPolicy) (l : Limits)
    → let p = resolve_effective_policy r l in
      IsAtMost p.normal r.normal l.normal
      × IsAtMost p.repair r.repair l.repair
      × IsAtMost p.closing r.closing l.closing
      × IsAtMost p.max_tokens_per_inference r.max_tokens_per_inference l.max_tokens_per_inference
      × IsAtMost p.tool_calls r.tool_calls l.tool_calls
      × IsSoftLimit p.normal r.normal_inference_soft_limit l.normal_inference_soft_limit
          p.normal_inference_soft_limit
      × IsSoftLimit p.tool_calls r.tool_call_soft_limit l.tool_call_soft_limit
          p.tool_call_soft_limit
      × IsStaged p
unfolding resolve_effective_policy
resolve_effective_policy-IsAtMost r l = (
  (omega arith, omega arith),
  (omega arith, omega arith),
  (omega arith, omega arith),
  (omega arith, omega arith),
  (omega arith, omega arith),
  soft_limit-IsSoftLimit _ _ _,
  soft_limit-IsSoftLimit _ _ _,
  resolve_effective_policy-IsStaged r l,
)
