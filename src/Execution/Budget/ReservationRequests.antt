-- ===== src/Execution/Budget/ReservationRequests.antt =====
-- `validateReservationRequest` of src/execution/inference-budget-policy.ts.
use documents_backend.Common.{
  ℕ, ltb, leb, String, Bool, true, false, not, ◌&&◌, ◌||◌, Option, none, some, [], ◌∷◌, ◌==◌,
  eq_string, eq_option, get_or, is_some, if◌then◌else◌, Result, ok, bad_request, ◌>>◌, throw_if,
}
use documents_backend.Common.Text.{is_uuid, is_content_hash, is_blank}
use documents_backend.Execution.Types.{
  OperationKind, inference, tool_call, Bucket, normal, repair, closing, tool,
}
use documents_backend.Execution.Budget.Requests.{Number, nat, at_least, number, check_uuids}

pub record RawReservationRequest : Type 0 where
  pub execution_id : String
  pub loop_id : String
  pub grant_id : String
  pub operation_id : String
  pub operation_kind : String
  pub bucket : String
  pub tool_call_id : Option String
  pub operation_fingerprint : Option String
  pub operation_fingerprint_version : Option String
  pub tool_batch_size : Option Number
  pub tool_batch_index : Option Number
  pub phase : String
  pub round : Number
  pub name : String
  pub execution_attempt_id : String

pub record ReservationRequest : Type 0 where
  pub execution_id : String
  pub loop_id : String
  pub grant_id : String
  pub operation_id : String
  pub operation_kind : OperationKind
  pub bucket : Bucket
  pub tool_call_id : Option String
  pub operation_fingerprint : Option String
  pub operation_fingerprint_version : Option String
  pub tool_batch_size : Option ℕ
  pub tool_batch_index : Option ℕ
  pub phase : String
  pub round : ℕ
  pub name : String
  pub execution_attempt_id : String

unfoldable pub kind_of : String → Option OperationKind
kind_of s =
    if s == "inference" then some inference else if s == "tool_call" then some tool_call else none

unfoldable pub bucket_of : String → Option Bucket
bucket_of s =
    if s == "normal"
    then some normal
    else if s == "repair"
    then some repair
    else if s == "closing"
    then some closing
    else if s == "tool"
    then some tool
    else none

-- The fields of a tool call that an inference must not have.
unfoldable pub has_tool_identity : RawReservationRequest → Bool
has_tool_identity r =
    is_some r.tool_call_id
    || is_some r.operation_fingerprint
    || is_some r.operation_fingerprint_version
    || is_some r.tool_batch_size
    || is_some r.tool_batch_index

abbrev pub same_presence {ℓ κ} : {A : Type ℓ} {B : Type κ} → Option A → Option B → Bool
same_presence none none = true
same_presence (some _) (some _) = true
same_presence _ _ = false

unfoldable pub is_fingerprint : Option String → Option String → Bool
is_fingerprint none version = true
is_fingerprint (some f) version = is_content_hash f && version == some "canonical_tool_input_v1"

-- `Number.isInteger(size) && size >= 1`, `Number.isInteger(index) && 0 <= index < size`.
abbrev pub is_batch : Option Number → Option Number → Bool
is_batch (some (nat size)) (some (nat index)) = leb 1 size && ltb index size
is_batch none index = true
is_batch _ _ = false

-- The batch check of the request: both fields or none, and only on a tool call.
unfoldable pub batch_ok : Option OperationKind → Option Number → Option Number → Bool
batch_ok kind none none = true
batch_ok (some tool_call) size index = same_presence size index && is_batch size index
batch_ok _ _ _ = false

abbrev pub is_kind : OperationKind → Option OperationKind → Bool
is_kind inference (some inference) = true
is_kind tool_call (some tool_call) = true
is_kind _ _ = false

abbrev pub number_of : Option Number → Option ℕ
number_of none = none
number_of (some n) = some (number n)

unfoldable pub read_request : OperationKind → Bucket → RawReservationRequest → ReservationRequest
read_request kind bucket r = record {
  execution_id = r.execution_id;
  loop_id = r.loop_id;
  grant_id = r.grant_id;
  operation_id = r.operation_id;
  operation_kind = kind;
  bucket = bucket;
  tool_call_id = r.tool_call_id;
  operation_fingerprint = r.operation_fingerprint;
  operation_fingerprint_version = r.operation_fingerprint_version;
  tool_batch_size = number_of r.tool_batch_size;
  tool_batch_index = number_of r.tool_batch_index;
  phase = r.phase;
  round = number r.round;
  name = r.name;
  execution_attempt_id = r.execution_attempt_id;
}

-- `expected ∈ …` and the rest of the first condition.
unfoldable pub has_basics : RawReservationRequest → Bool
has_basics r =
    is_some (kind_of r.operation_kind)
    && is_some (bucket_of r.bucket)
    && not (is_blank r.phase)
    && not (is_blank r.name)
    && at_least 1 r.round

unfoldable pub validate_reservation_request :
    String → RawReservationRequest → Result ReservationRequest
validate_reservation_request root r = do
  check_uuids (
      ("rootExecutionId", root)
      ∷ ("executionId", r.execution_id)
      ∷ ("loopId", r.loop_id)
      ∷ ("grantId", r.grant_id)
      ∷ ("operationId", r.operation_id)
      ∷ ("executionAttemptId", r.execution_attempt_id)
      ∷ [])
  throw_if (not (has_basics r)) (bad_request "Invalid operation budget reservation")
  throw_if
      (is_kind tool_call (kind_of r.operation_kind) && not (is_uuid (get_or r.tool_call_id "")))
      (bad_request "toolCallId must be a UUID")
  throw_if (is_kind inference (kind_of r.operation_kind) && has_tool_identity r)
      (bad_request "Tool identity is only valid for tool budget reservations")
  throw_if
      (not (
        same_presence r.operation_fingerprint r.operation_fingerprint_version
        && is_fingerprint r.operation_fingerprint r.operation_fingerprint_version))
      (bad_request "Invalid tool operation fingerprint")
  throw_if (not (batch_ok (kind_of r.operation_kind) r.tool_batch_size r.tool_batch_index))
      (bad_request "Invalid tool batch identity")
  ok (
      read_request (get_or (kind_of r.operation_kind) inference)
        (get_or (bucket_of r.bucket) normal) r)
