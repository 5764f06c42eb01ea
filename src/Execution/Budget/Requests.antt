-- ===== src/Execution/Budget/Requests.antt =====
-- The two budget requests of a worker and their validation: `validateProgressGrantRequest` and
-- `validateReservationRequest` of src/execution/inference-budget-policy.ts.
-- A request comes as JSON, so a number or a flag may be of any kind. Validation returns the request
-- as the rest of the code reads it, with its numbers, its kind and its bucket at their types.
use documents_backend.Common.{
  ℕ, leb, String, Bool, true, false, not, ◌&&◌, Option, none, some, List, [], ◌∷◌, ◌!=◌, eq_string,
  if◌then◌else◌, Result, ok, err, bad_request, ◌>>=◌, ◌>>◌, throw_if,
}
use documents_backend.Common.Text.{is_uuid, is_blank}
use Prim.Native.String

-- A JSON value where a number is wanted: an integer from 0, a negative one, or anything else.
pub data Number : Type 0 where
  nat : ℕ → Number
  negative : ℕ → Number
  not_integer : Number

-- A JSON value where an optional flag is wanted.
pub data Flag : Type 0 where
  absent : Flag
  flag : Bool → Flag
  not_boolean : Flag

-- `Number.isInteger(x) && x >= k`.
abbrev pub at_least : ℕ → Number → Bool
at_least k (nat n) = leb k n
at_least k _ = false

-- `x <= k`, of an integer.
abbrev pub at_most : ℕ → Number → Bool
at_most k (nat n) = leb n k
at_most k (negative n) = true
at_most k not_integer = false

abbrev pub is_flag : Flag → Bool
is_flag not_boolean = false
is_flag _ = true

abbrev pub number : Number → ℕ
number (nat n) = n
number _ = 0

abbrev pub flag_value : Flag → Option Bool
flag_value (flag b) = some b
flag_value _ = none

pub record RawPolicy : Type 0 where
  pub normal : Number
  pub normal_inference_soft_limit : Number
  pub repair : Number
  pub closing : Number
  pub max_tokens_per_inference : Number
  pub tool_calls : Number
  pub tool_call_soft_limit : Number
  pub exact_tool_repeat_warning : Flag
  pub exact_tool_repeat_block_after_warning : Flag
  pub exact_tool_repeat_terminate_after_block : Flag

-- A text that is absent is the empty one here.
pub record RawGrantRequest : Type 0 where
  pub execution_id : String
  pub turn_id : String
  pub loop_id : String
  pub agent_name : String
  pub loop_kind : String
  pub execution_attempt_id : String
  pub requested_policy : Option RawPolicy

pub record RequestedPolicy : Type 0 where
  pub normal : ℕ
  pub normal_inference_soft_limit : ℕ
  pub repair : ℕ
  pub closing : ℕ
  pub max_tokens_per_inference : ℕ
  pub tool_calls : ℕ
  pub tool_call_soft_limit : ℕ
  pub exact_tool_repeat_warning : Option Bool
  pub exact_tool_repeat_block_after_warning : Option Bool
  pub exact_tool_repeat_terminate_after_block : Option Bool

pub record GrantRequest : Type 0 where
  pub execution_id : String
  pub turn_id : String
  pub loop_id : String
  pub agent_name : String
  pub execution_attempt_id : String
  pub requested_policy : RequestedPolicy

-- The loop over the identifiers of a request.
unfoldable pub check_uuids : List (String × String) → Result (Unit {0})
check_uuids [] = ok tt
check_uuids ((name, value) ∷ rest) =
    if is_uuid value
    then check_uuids rest
    else err (bad_request (String.◌++◌ name " must be a UUID"))

unfoldable pub is_valid_policy : RawPolicy → Bool
is_valid_policy p =
    at_least 1 p.normal
    && at_least 0 p.normal_inference_soft_limit
    && at_least 0 p.repair
    && at_least 0 p.closing
    && at_most 1 p.closing
    && at_least 1 p.max_tokens_per_inference
    && at_least 0 p.tool_calls
    && at_least 0 p.tool_call_soft_limit
    && is_flag p.exact_tool_repeat_warning
    && is_flag p.exact_tool_repeat_block_after_warning
    && is_flag p.exact_tool_repeat_terminate_after_block

unfoldable pub read_policy : RawPolicy → RequestedPolicy
read_policy p = record {
  normal = number p.normal;
  normal_inference_soft_limit = number p.normal_inference_soft_limit;
  repair = number p.repair;
  closing = number p.closing;
  max_tokens_per_inference = number p.max_tokens_per_inference;
  tool_calls = number p.tool_calls;
  tool_call_soft_limit = number p.tool_call_soft_limit;
  exact_tool_repeat_warning = flag_value p.exact_tool_repeat_warning;
  exact_tool_repeat_block_after_warning = flag_value p.exact_tool_repeat_block_after_warning;
  exact_tool_repeat_terminate_after_block = flag_value p.exact_tool_repeat_terminate_after_block;
}

check_policy : String → Option RawPolicy → Result RequestedPolicy
unfolding is_valid_policy read_policy
check_policy agent_name none = err (bad_request "Invalid progress grant request")
check_policy agent_name (some p) =
    if is_valid_policy p && not (is_blank agent_name)
    then ok (read_policy p)
    else err (bad_request "Invalid progress grant request")

unfoldable pub validate_progress_grant_request : String → RawGrantRequest → Result GrantRequest
unfolding check_uuids check_policy
validate_progress_grant_request root r = do
  check_uuids (
      ("rootExecutionId", root)
      ∷ ("executionId", r.execution_id)
      ∷ ("turnId", r.turn_id)
      ∷ ("loopId", r.loop_id)
      ∷ ("executionAttemptId", r.execution_attempt_id)
      ∷ [])
  throw_if (r.loop_kind != "top_level") (bad_request "Only top-level loops receive a grant")
  policy ← check_policy r.agent_name r.requested_policy
  ok (record {
    execution_id = r.execution_id;
    turn_id = r.turn_id;
    loop_id = r.loop_id;
    agent_name = r.agent_name;
    execution_attempt_id = r.execution_attempt_id;
    requested_policy = policy;
  })
