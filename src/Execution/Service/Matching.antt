-- ===== src/Execution/Service/Matching.antt =====
-- A decision matches the validated request that it was made for: `createOperationBudgetReservation`
-- against `validateReservationRequest` of src/execution/inference-budget-policy.ts.
use documents_backend.Common.{
  String, Bool, true, false, not, ◌&&◌, ◌≡◌, refl, Option, some, none, [], ◌∷◌, arith, ◌==◌,
  eq_string, eq_nat, eq_option, is_some, truthy, get_or, if◌then◌else◌, eq_iff, str_eq,
  Option-cases, eq_refl, ok, Bool-cases, inl, inr, >>=-eq-ok,
}
use documents_backend.Common.Text.{is_uuid, is_content_hash}
use documents_backend.Execution.Types.{
  OperationKind, inference, tool_call, Bucket, eq_kind, eq_bucket,
}
use documents_backend.Execution.Progress.BudgetEvents.{normalized}
use documents_backend.Execution.Budget.Requests.{Number, check_uuids}
use documents_backend.Execution.Budget.ReservationRequests.{
  RawReservationRequest, ReservationRequest, validate_reservation_request, kind_of, bucket_of,
  read_request, has_basics, has_tool_identity, is_fingerprint, same_presence, batch_ok, is_kind,
  number_of, number_of,
}
use documents_backend.Execution.Budget.Checks.{non_empty, reservation_matches, create_reservation}

-- The optional fields of a request are left as they are by the reservation.
pub record IsPlain (r : ReservationRequest) : Type 0 where
  pub tool_call_id : non_empty r.tool_call_id ≡ r.tool_call_id
  pub fingerprint : non_empty r.operation_fingerprint ≡ r.operation_fingerprint
  pub version :
      (if truthy r.operation_fingerprint then r.operation_fingerprint_version else none)
      ≡ r.operation_fingerprint_version
  pub index : (if is_some r.tool_batch_size then r.tool_batch_index else none) ≡ r.tool_batch_index

-- The checks that a validated request went through.
record Checked (raw : RawReservationRequest) (r : ReservationRequest) : Type 0 where
  pub kind : OperationKind
  pub bucket : Bucket
  pub read : r ≡ read_request kind bucket raw
  pub of_kind : kind_of raw.operation_kind ≡ some kind
  pub call : (is_kind tool_call (some kind) && not (is_uuid (get_or raw.tool_call_id ""))) ≡ false
  pub identity : (is_kind inference (some kind) && has_tool_identity raw) ≡ false
  pub fingerprint :
      (same_presence raw.operation_fingerprint raw.operation_fingerprint_version
        && is_fingerprint raw.operation_fingerprint raw.operation_fingerprint_version)
      ≡ true
  pub batch : batch_ok (some kind) raw.tool_batch_size raw.tool_batch_index ≡ true

has_basics-kind :
    (raw : RawReservationRequest)
    → has_basics raw ≡ true
    → ((k : OperationKind) × (kind_of raw.operation_kind ≡ some k))
      × ((b : Bucket) × (bucket_of raw.bucket ≡ some b))
unfolding has_basics
has_basics-kind raw h = (
  elim (Option-cases (kind_of raw.operation_kind)) [
    | inl none_ ↦ absurd (ground arith)
    | inr found ↦ found
  ],
  elim (Option-cases (bucket_of raw.bucket)) [
    | inl none_ ↦ absurd (ground arith)
    | inr found ↦ found
  ],
)

validate_reservation_request-Checked :
    (root : String) (raw : RawReservationRequest) (r : ReservationRequest)
    → validate_reservation_request root raw ≡ ok r
    → Checked raw r
unfolding validate_reservation_request
validate_reservation_request-Checked root raw r h =
    let basics : has_basics raw ≡ true = ground arith in
    let ((kind, of_kind), (bucket, of_bucket)) = has_basics-kind raw basics in
    record {
      kind = kind;
      bucket = bucket;
      read = ground arith;
      of_kind = of_kind;
      call = ground arith;
      identity = ground arith;
      fingerprint = ground arith;
      batch = ground arith;
    }

-- A text that a check accepts, and that does not accept the empty text, is not empty.
non_empty-accepted :
    (p : String → Bool) (o : Option String)
    → p "" ≡ false
    → p (get_or o "") ≡ true
    → non_empty o ≡ o
non_empty-accepted p none e h = refl
non_empty-accepted p (some s) e h = elim (Bool-cases (str_eq s "")) [
  | inl t ↦ let bad = rw ((eq_iff s "").0 t, e) at h in cc
  | inr t ↦ rw t refl
]

uuid-not_empty : is_uuid "" ≡ false
unfolding is_uuid
uuid-not_empty = refl

content_hash-not_empty : is_content_hash "" ≡ false
unfolding is_content_hash
content_hash-not_empty = refl

fingerprint-accepted :
    (f v : Option String)
    → (same_presence f v && is_fingerprint f v) ≡ true
    → (non_empty f ≡ f) × ((if truthy f then v else none) ≡ v)
unfolding is_fingerprint
fingerprint-accepted none v h = (refl, ground arith)
fingerprint-accepted (some f) v h =
    let kept = non_empty-accepted is_content_hash (some f) content_hash-not_empty (ground arith) in
    (kept, ground arith)

batch-accepted :
    (k : OperationKind) (size index : Option Number)
    → batch_ok (some k) size index ≡ true
    → (if is_some (number_of size) then number_of index else none) ≡ number_of index
unfolding batch_ok
batch-accepted k size index h = ground arith

call-accepted :
    (k : OperationKind) (raw : RawReservationRequest)
    → (is_kind tool_call (some k) && not (is_uuid (get_or raw.tool_call_id ""))) ≡ false
    → (is_kind inference (some k) && has_tool_identity raw) ≡ false
    → non_empty raw.tool_call_id ≡ raw.tool_call_id
unfolding has_tool_identity
call-accepted inference raw h i = ground arith
call-accepted tool_call raw h i =
    non_empty-accepted is_uuid raw.tool_call_id uuid-not_empty (ground arith)

read-IsPlain :
    {raw : RawReservationRequest} {r : ReservationRequest} (c : Checked raw r)
    → IsPlain (read_request c.kind c.bucket raw)
unfolding read_request
read-IsPlain {raw} c =
    let (fingerprint, version) = fingerprint-accepted _ _ c.fingerprint in
    record {
      tool_call_id = call-accepted c.kind raw c.call c.identity;
      fingerprint = fingerprint;
      version = version;
      index = batch-accepted c.kind raw.tool_batch_size raw.tool_batch_index c.batch;
    }

uuids-operation :
    (root a b c operation d : String)
    → check_uuids (
        ("rootExecutionId", root)
        ∷ ("executionId", a)
        ∷ ("loopId", b)
        ∷ ("grantId", c)
        ∷ ("operationId", operation)
        ∷ ("executionAttemptId", d)
        ∷ [])
      ≡ ok tt
    → is_uuid operation ≡ true
unfolding check_uuids
uuids-operation root a b c operation d h = ground arith

-- A validated request names its operation.
pub validate_reservation_request-named :
    (root : String) (raw : RawReservationRequest) (r : ReservationRequest)
    → validate_reservation_request root raw ≡ ok r
    → (r.operation_id == "") ≡ false
unfolding validate_reservation_request read_request
validate_reservation_request-named root raw r h =
    let (_, uuids, _) = >>=-eq-ok (check_uuids _) _ h in
    let valid =
      uuids-operation root raw.execution_id raw.loop_id raw.grant_id raw.operation_id
        raw.execution_attempt_id uuids in
    let same : r.operation_id ≡ raw.operation_id = ground arith in
    elim (Bool-cases (str_eq r.operation_id "")) [
      | inl t ↦ let bad = rw (← same, (eq_iff r.operation_id "").0 t, uuid-not_empty) at valid in cc
      | inr t ↦ t
    ]

pub validate_reservation_request-IsPlain :
    (root : String) (raw : RawReservationRequest) (r : ReservationRequest)
    → validate_reservation_request root raw ≡ ok r
    → IsPlain r
validate_reservation_request-IsPlain root raw r h =
    let c = validate_reservation_request-Checked root raw r h in rw c.read (read-IsPlain c)

pub create_reservation-matches :
    (r : ReservationRequest) (granted : Bool) (id now : String) (reason : Option String)
    → IsPlain r
    → reservation_matches (normalized (create_reservation r granted id now reason)) r ≡ true
unfolding reservation_matches create_reservation
create_reservation-matches r granted id now reason h =
    rw (h.tool_call_id, h.fingerprint, h.version, h.index)
      (ground (
        arith,
        eq_refl r.grant_id,
        eq_refl r.operation_id,
        eq_refl r.execution_attempt_id,
        eq_refl r.operation_kind,
        eq_refl r.bucket,
        eq_refl r.tool_call_id,
        eq_refl r.phase,
        eq_refl r.round,
        eq_refl r.name,
        eq_refl r.operation_fingerprint,
        eq_refl r.operation_fingerprint_version,
        eq_refl r.tool_batch_size,
        eq_refl r.tool_batch_index,
      ))
