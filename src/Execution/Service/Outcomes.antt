-- ===== src/Execution/Service/Outcomes.antt =====
-- What a budget transaction that succeeds has done to the log.
use documents_backend.Common.{
  String, ◌≡◌, refl, Option, none, some, ◌⊎◌, inl, inr, arith, ok, >>=-eq-ok,
}
use documents_backend.Common.Dict.{lookup}
use documents_backend.Execution.Types.{Reservation, GrantState, Ledger, Grant}
use documents_backend.Execution.Entity.{Execution}
use documents_backend.Execution.Progress.BudgetEvents.{ensure_budget}
use documents_backend.Execution.Progress.Consume.{guard_snapshot}
use documents_backend.Execution.Progress.Projection.{project}
use documents_backend.Execution.Budget.Requests.{
  RawGrantRequest, GrantRequest, validate_progress_grant_request,
}
use documents_backend.Execution.Budget.ReservationRequests.{
  RawReservationRequest, ReservationRequest, validate_reservation_request,
}
use documents_backend.Execution.Budget.Checks.{
  assert_active_attempt, assert_grant_scope, assert_reservation_scope,
}
use documents_backend.Execution.Service.Store.{Store, Fresh, envelopes, find_root}
use documents_backend.Execution.Service.Grants.{
  Config, limits, GrantReply, grant_store, append_grant, reuse_grant, grant_or_reuse,
  request_progress_grant,
}
use documents_backend.Execution.Service.Reserve.{
  ReserveReply, Decision, decide, decided_reservation, decision_store, decision_reply,
  append_decision, repeat_decision, reserve_new, reserve_or_repeat, reserve,
  reserve_operation_budget,
}

-- The decision that the code takes on a new operation under the grant `g`.
abbrev pub decision : Fresh → Store → ReservationRequest → GrantState → Decision
decision fresh s r g =
    decide s.rows r g (guard_snapshot (project (envelopes s.rows)).ledger g.grant.grant_id)
      fresh.now

-- The root execution was found, and the request is in its scope.
pub record Admitted (s : Store) (root : String) (x : Execution) (r : ReservationRequest)
    : Type 0 where
  pub execution : find_root root s.executions ≡ ok x
  pub active : assert_active_attempt x r.execution_attempt_id ≡ ok tt
  pub scope : assert_reservation_scope x r ≡ ok tt

-- The request found its grant, and the decision was appended and returned.
pub record Decided (fresh : Fresh) (s : Store) (x : Execution) (r : ReservationRequest)
    (reply : ReserveReply) (s' : Store) : Type 0 where
  pub grant : GrantState
  pub new :
      lookup r.operation_id (ensure_budget (project (envelopes s.rows)).ledger).reservations ≡ none
  pub found :
      lookup r.grant_id (ensure_budget (project (envelopes s.rows)).ledger).grants ≡ some grant
  pub store : s' ≡ decision_store fresh s x r grant (decision fresh s r grant)
  pub granted : reply.granted ≡ (decision fresh s r grant).granted
  pub reservation : reply.reservation ≡ decided_reservation fresh r (decision fresh s r grant)

-- The request was answered from an earlier decision, and the store is as it was.
abbrev pub Repeated : ReservationRequest → Store → ReserveReply → Store → Type 0
Repeated r s reply s' =
    (v : Reservation) × (lookup r.operation_id
        (ensure_budget (project (envelopes s.rows)).ledger).reservations
      ≡ some v)
    × (repeat_decision r s (project (envelopes s.rows)).ledger v ≡ ok (reply, s'))
    × (s' ≡ s)

module _ (fresh : Fresh) (s : Store) (reply : ReserveReply) (s' : Store) where
  append_decision-ok :
      (x : Execution) (r : ReservationRequest) (g : GrantState) (d : Decision)
      → append_decision fresh s x r g d ≡ ok (reply, s')
      → (s' ≡ decision_store fresh s x r g d)
        × (reply.granted ≡ d.granted)
        × (reply.reservation ≡ decided_reservation fresh r d)
  unfolding append_decision decision_reply
  append_decision-ok x r g d e = ground arith

  reserve_new-ok :
      (x : Execution) (r : ReservationRequest) (o : Option GrantState)
      → lookup r.operation_id (ensure_budget (project (envelopes s.rows)).ledger).reservations
        ≡ none
      → lookup r.grant_id (ensure_budget (project (envelopes s.rows)).ledger).grants ≡ o
      → reserve_new fresh r s x (project (envelopes s.rows)).ledger o ≡ ok (reply, s')
      → Decided fresh s x r reply s'
  unfolding reserve_new
  reserve_new-ok x r none new found e = cc
  reserve_new-ok x r (some g) new found e =
      let appended : append_decision fresh s x r g (decision fresh s r g) ≡ ok (reply, s') =
        ground arith in
      let (store, granted, reservation) =
        append_decision-ok x r g (decision fresh s r g) appended in
      record {
        grant = g;
        new = new;
        found = found;
        store = store;
        granted = granted;
        reservation = reservation;
      }

  repeat_decision-ok :
      (r : ReservationRequest) (l : Ledger) (v : Reservation)
      → repeat_decision r s l v ≡ ok (reply, s')
      → s' ≡ s
  unfolding repeat_decision
  repeat_decision-ok r l v e = ground arith

  reserve_or_repeat-ok :
      (x : Execution) (r : ReservationRequest) (o : Option Reservation)
      → lookup r.operation_id (ensure_budget (project (envelopes s.rows)).ledger).reservations ≡ o
      → reserve_or_repeat fresh r s x (project (envelopes s.rows)).ledger o ≡ ok (reply, s')
      → Repeated r s reply s' ⊎ Decided fresh s x r reply s'
  unfolding reserve_or_repeat
  reserve_or_repeat-ok x r (some v) found e = inl (v, found, e, repeat_decision-ok r _ v e)
  reserve_or_repeat-ok x r none found e = inr (reserve_new-ok x r _ found refl e)

  pub reserve-ok :
      (root : String) (r : ReservationRequest)
      → reserve fresh root r s ≡ ok (reply, s')
      → (x : Execution) × Admitted s root x r
        × (Repeated r s reply s' ⊎ Decided fresh s x r reply s')
  unfolding reserve
  reserve-ok root r e =
      let (x, execution, e₁) = >>=-eq-ok (find_root root s.executions) _ e in
      let (_, active, e₂) = >>=-eq-ok (assert_active_attempt x r.execution_attempt_id) _ e₁ in
      let (_, scope, e₃) = >>=-eq-ok (assert_reservation_scope x r) _ e₂ in
      (
        x,
        record { execution = execution; active = active; scope = scope },
        reserve_or_repeat-ok x r _ refl e₃,
      )

  pub reserve_operation_budget-ok :
      (root : String) (raw : RawReservationRequest)
      → reserve_operation_budget fresh root raw s ≡ ok (reply, s')
      → (r : ReservationRequest) × (validate_reservation_request root raw ≡ ok r)
        × (reserve fresh root r s ≡ ok (reply, s'))
  unfolding reserve_operation_budget
  reserve_operation_budget-ok root raw e = >>=-eq-ok (validate_reservation_request root raw) _ e

-- A grant request that succeeds has appended one grant, or nothing.
module _ (fresh : Fresh) (s : Store) (reply : GrantReply) (s' : Store) where
  append_grant-ok :
      (x : Execution) (g : Grant)
      → append_grant fresh s x g ≡ ok (reply, s')
      → s' ≡ grant_store fresh s x g
  unfolding append_grant
  append_grant-ok x g e = ground arith

  grant_or_reuse-ok :
      (config : Config) (x : Execution) (r : GrantRequest) (o : Option GrantState)
      → grant_or_reuse fresh (limits config) r s x o ≡ ok (reply, s')
      → (s' ≡ s) ⊎ ((g : Grant) × (s' ≡ grant_store fresh s x g))
  unfolding grant_or_reuse reuse_grant
  grant_or_reuse-ok config x r (some old) e = inl (ground arith)
  grant_or_reuse-ok config x r none e = inr (_, append_grant-ok x _ e)

  pub request_progress_grant-ok :
      (config : Config) (root : String) (raw : RawGrantRequest)
      → request_progress_grant fresh config root raw s ≡ ok (reply, s')
      → (s' ≡ s) ⊎ ((x : Execution) × (g : Grant) × (s' ≡ grant_store fresh s x g))
  unfolding request_progress_grant
  request_progress_grant-ok config root raw e =
      let (r, _, e₁) = >>=-eq-ok (validate_progress_grant_request root raw) _ e in
      let (x, _, e₂) = >>=-eq-ok (find_root root s.executions) _ e₁ in
      let (_, _, e₃) = >>=-eq-ok (assert_active_attempt x r.execution_attempt_id) _ e₂ in
      let (_, _, e₄) = >>=-eq-ok (assert_grant_scope x r) _ e₃ in
      elim (grant_or_reuse-ok config x r _ e₄) [
        | inl same ↦ inl same
        | inr (g, appended) ↦ inr (x, g, appended)
      ]
