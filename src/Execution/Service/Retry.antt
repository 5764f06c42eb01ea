-- ===== src/Execution/Service/Retry.antt =====
-- A repeated reservation request (`reserveOperationBudget` of src/execution/execution.service.ts).
use documents_backend.Common.{
  String, false, ◌≡◌, refl, sym, some, ◌==◌, eq_string, eq_refl, Bool-cases, inl, inr, ◌∙◌, find,
  Result, ok,
}
use documents_backend.Common.Dict.{lookup}
use documents_backend.Execution.Types.{Reservation, status_eq, reserved}
use documents_backend.Execution.Entity.{Execution}
use documents_backend.Execution.Events.{Row}
use documents_backend.Execution.Progress.BudgetEvents.{ensure_budget, normalized}
use documents_backend.Execution.Progress.Projection.{project}
use documents_backend.Execution.Budget.ReservationRequests.{
  RawReservationRequest, ReservationRequest, validate_reservation_request,
}
use documents_backend.Execution.Budget.Checks.{
  assert_active_attempt, assert_reservation_scope, create_reservation,
}
use documents_backend.Execution.Service.Store.{
  Store, Fresh, envelopes, refresh, next_producer_sequence,
}
use documents_backend.Execution.Service.Reserve.{
  ReserveReply, Decision, denied_reason, decided_reservation, reservation_row, decision_rows,
  soft_signal_of, guard_signal, rows_after, advanced, decision_store, repeat_decision,
  reserve_or_repeat, reserve, reserve_operation_budget, is_reservation_row, reported,
}
use documents_backend.Execution.Service.Outcomes.{
  decision, Decided, Admitted, reserve-ok, reserve_operation_budget-ok,
}
use documents_backend.Execution.Service.Matching.{
  IsPlain, validate_reservation_request-IsPlain, create_reservation-matches,
  validate_reservation_request-named,
}
use documents_backend.Execution.Service.Kept.{Kept, decision_rows-Kept}
use documents_backend.Execution.Service.Repeat.{
  find_root-named, find_root-save, find-middle, repeat_decision-granted,
}

module _ (fresh : Fresh) (s : Store) (x : Execution) (r : ReservationRequest) (reply : ReserveReply)
    (s' : Store) (d : Decided fresh s x r reply s') where
  abbrev made : Reservation
  made = decided_reservation fresh r (decision fresh s r d.grant)

  -- The log has the reservation, and knows its grant.
  decided-Kept :
      (r.operation_id == "") ≡ false
      → Kept r.operation_id r.grant_id
          (normalized made)
          (ensure_budget (project (envelopes s'.rows)).ledger)
  unfolding decision_store rows_after decided_reservation create_reservation
  decided-Kept named = rw d.store (
      decision_rows-Kept fresh (next_producer_sequence s.rows) x made
        (soft_signal_of fresh r d.grant (decision fresh s r d.grant))
        (guard_signal (decision fresh s r d.grant)) s.rows r.grant_id d.grant named d.new d.found)

  -- The log has the row of the decision.
  decided-row : (row : Row) × (find (is_reservation_row r.operation_id) s'.rows ≡ some row)
  unfolding decision_store rows_after decision_rows reservation_row decided_reservation
      create_reservation
  decided-row =
      rw d.store
        (find-middle (is_reservation_row r.operation_id) s.rows _ _ (eq_refl r.operation_id))

  -- The root execution of the store is the one that the decision has saved.
  decided-Admitted : (root : String) → Admitted s root x r → (y : Execution) × Admitted s' root y r
  unfolding decision_store advanced refresh assert_active_attempt assert_reservation_scope
  decided-Admitted root a =
      let (named, root_named) = find_root-named root s.executions x a.execution in
      let made_decision = decision fresh s r d.grant in
      (
        advanced fresh (rows_after fresh s x r d.grant made_decision) x
            (soft_signal_of fresh r d.grant made_decision) (guard_signal made_decision),
        rw d.store (record {
          execution = find_root-save root s.executions x _ a.execution named root_named;
          active = a.active;
          scope = a.scope;
        }),
      )

-- What the whole transaction does once the request is admitted.
reserve-Admitted :
    (fresh : Fresh) (root : String) (r : ReservationRequest) (s : Store) (x : Execution)
    → Admitted s root x r
    → reserve fresh root r s
      ≡ reserve_or_repeat fresh r s x
          (project (envelopes s.rows)).ledger
          (lookup r.operation_id (ensure_budget (project (envelopes s.rows)).ledger).reservations)
unfolding reserve
reserve-Admitted fresh root r s x a = rw (a.execution, a.active, a.scope) refl

-- The reply to a repeated request, against the one before.
abbrev pub SameDecision : ReserveReply → ReserveReply → Type 0
SameDecision again first = (again.granted ≡ first.granted) × (again.reservation ≡ first.reservation)

-- The second transaction, on a request that is admitted and has a reservation.
repeated-again :
    (fresh : Fresh) (root : String) (r : ReservationRequest) (s : Store) (x : Execution)
    (v : Reservation) (again : ReserveReply)
    → Admitted s root x r
    → lookup r.operation_id (ensure_budget (project (envelopes s.rows)).ledger).reservations
      ≡ some v
    → repeat_decision r s (project (envelopes s.rows)).ledger v ≡ ok (again, s)
    → reserve fresh root r s ≡ ok (again, s)
unfolding reserve_or_repeat
repeated-again fresh root r s x v again a found repeated =
    reserve-Admitted fresh root r s x a ∙ rw found repeated

-- A reservation that was just decided is reported as it was made.
reported-made :
    (fresh : Fresh) (r : ReservationRequest) (d : Decision)
    → let v = decided_reservation fresh r d in
      (status_eq v.status reserved ≡ d.granted) × (reported (normalized v) ≡ v)
unfolding decided_reservation create_reservation
reported-made fresh r d = elim (Bool-cases d.granted) [
  | inl t ↦ rw t (refl, refl)
  | inr t ↦ rw t (refl, refl)
]

-- The request that was just decided, once more.
Decided-again :
    (fresh fresh' : Fresh) (root : String) (s : Store) (x : Execution) (r : ReservationRequest)
    (reply : ReserveReply) (s' : Store)
    → Decided fresh s x r reply s'
    → Admitted s root x r
    → (r.operation_id == "") ≡ false
    → IsPlain r
    → (again : ReserveReply) × (reserve fresh' root r s' ≡ ok (again, s'))
      × SameDecision again reply
unfolding decided_reservation create_reservation
Decided-again fresh fresh' root s x r reply s' d a named plain =
    let kept = decided-Kept fresh s x r reply s' d named in
    let (y, a') = decided-Admitted fresh s x r reply s' d root a in
    let (row, logged) = decided-row fresh s x r reply s' d in
    let made_decision = decision fresh s r d.grant in
    let v = decided_reservation fresh r made_decision in
    let matches =
      create_reservation-matches r made_decision.granted fresh.decision_id fresh.now
        (denied_reason made_decision) plain in
    let (again, repeated, granted, reservation) =
      repeat_decision-granted r s' (project (envelopes s'.rows)).ledger (normalized v) kept.1.0 row
        matches kept.1.1 logged in
    let (status, report) = reported-made fresh r made_decision in
    (
      again,
      repeated-again fresh' root r s' y (normalized v) again a' kept.0 repeated,
      (granted ∙ status ∙ sym d.granted, reservation ∙ report ∙ sym d.reservation),
    )

validated-reserve :
    (fresh : Fresh) (root : String) (raw : RawReservationRequest) (r : ReservationRequest)
    (s : Store) {outcome : Result (ReserveReply × Store)}
    → validate_reservation_request root raw ≡ ok r
    → reserve fresh root r s ≡ outcome
    → reserve_operation_budget fresh root raw s ≡ outcome
unfolding reserve_operation_budget
validated-reserve fresh root raw r s valid e = rw valid e

-- A reservation request that is put again to the store that its first answer left, before anything
-- else is written to it, is answered with the decision that was made the first time, whatever the
-- instant and the new identifiers, and it changes neither the executions nor the log, so that no
-- second unit is reserved.
pub reserve_operation_budget-again :
    (fresh : Fresh) (root : String) (raw : RawReservationRequest) (s : Store) (reply : ReserveReply)
    (s' : Store)
    → reserve_operation_budget fresh root raw s ≡ ok (reply, s')
    → (fresh' : Fresh)
    → (again : ReserveReply) × (reserve_operation_budget fresh' root raw s' ≡ ok (again, s'))
      × SameDecision again reply
reserve_operation_budget-again fresh root raw s reply s' h fresh' =
    let (r, valid, e) = reserve_operation_budget-ok fresh s reply s' root raw h in
    let (x, a, outcome) = reserve-ok fresh s reply s' root r e in
    elim outcome [
      | inl (v, found, repeated, same) ↦ (
        reply,
        rw same (
            validated-reserve fresh' root raw r s valid
              (repeated-again fresh' root r s x v reply a found (rw same at repeated))),
        (refl, refl),
      )
      | inr d ↦
          let (again, repeated, same) =
            Decided-again fresh fresh' root s x r reply s' d a
              (validate_reservation_request-named root raw r valid)
              (validate_reservation_request-IsPlain root raw r valid) in
          (again, validated-reserve fresh' root raw r s' valid repeated, same)
    ]
