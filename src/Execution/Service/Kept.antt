-- ===== src/Execution/Service/Kept.antt =====
-- What the log of a decision projects to: the reservation stands, and its grant is known
-- (src/execution/execution.service.ts).
use mathlib.Core.List.{map-append}
use documents_backend.Common.{
  ℕ, ◌+◌, String, false, ◌≡◌, ap, Option, some, none, List, ◌++◌, arith, ◌==◌, eq_string, eq_iff,
  Bool-cases, inl, inr, ◌∙◌,
}
use documents_backend.Common.Dict.{lookup, lookup-adjust-some, lookup-insert}
use documents_backend.Execution.Types.{
  Reservation, GrantState, SoftLimitSignal, GuardSignal, Budget, status_eq, reserved,
}
use documents_backend.Execution.Entity.{Execution}
use documents_backend.Execution.Events.{Row}
use documents_backend.Execution.Progress.BudgetEvents.{
  ensure_budget, apply_soft_limit, apply_reservation, normalized, apply_budget_event,
}
use documents_backend.Execution.Progress.Projection.{Projection, initial, step, steps, project}
use documents_backend.Execution.Service.Store.{Fresh, envelopes}
use documents_backend.Execution.Service.Reserve.{
  reservation_row, soft_limit_rows, guard_rows, decision_rows,
}
use documents_backend.Execution.Limits.Log.{steps-append, project-budget}

-- The operation has the reservation `v`, and the grant is known.
abbrev pub Kept : String → String → Reservation → Budget → Type 0
Kept id grant v b =
    (lookup id b.reservations ≡ some v) × ((g : GrantState) × (lookup grant b.grants ≡ some g))

module _ (id grant : String) (v : Reservation) where
  apply_soft_limit-Kept :
      (signal : SoftLimitSignal) (b : Budget)
      → Kept id grant v b
      → Kept id grant v (apply_soft_limit signal b)
  unfolding apply_soft_limit
  apply_soft_limit-Kept signal b (found, (g, known)) =
      (found, (_, lookup-adjust-some signal.grant_id grant _ b.grants g known))

  soft-Kept :
      (fresh : Fresh) (p n : ℕ) (o : Option SoftLimitSignal) (s : Projection)
      → Kept id grant v (ensure_budget s.ledger)
      → Kept id grant v (ensure_budget (steps s (envelopes (soft_limit_rows fresh p n o))).ledger)
  unfolding steps soft_limit_rows step apply_budget_event
  soft-Kept fresh p n none s h = h
  soft-Kept fresh p n (some signal) s h = elim (Bool-cases (signal.grant_id == "")) [
    | inl t ↦ rw t h
    | inr t ↦ rw t (apply_soft_limit-Kept signal (ensure_budget s.ledger) h)
  ]

  guard-Kept :
      (fresh : Fresh) (p n : ℕ) (o : Option GuardSignal) (s : Projection)
      → Kept id grant v (ensure_budget s.ledger)
      → Kept id grant v (ensure_budget (steps s (envelopes (guard_rows fresh p n o))).ledger)
  unfolding steps guard_rows step apply_budget_event
  guard-Kept fresh p n none s h = h
  guard-Kept fresh p n (some signal) s h = elim (Bool-cases (signal.grant_id == "")) [
    | inl t ↦ rw t h
    | inr t ↦ rw t h
  ]

-- A new reservation is added, and the grants stay known.
apply_reservation-Kept :
    (v : Reservation) (grant : String) (g : GrantState) (b : Budget)
    → lookup v.operation_id b.reservations ≡ none
    → lookup grant b.grants ≡ some g
    → Kept v.operation_id grant (normalized v) (apply_reservation v b)
unfolding apply_reservation
apply_reservation-Kept v grant g b new known = rw new (
  lookup-insert v.operation_id v.operation_id (normalized v) b.reservations
      ∙ ground (arith, eq_iff v.operation_id v.operation_id),
  elim (Bool-cases (status_eq v.status reserved)) [
    | inl t ↦ rw t (_, lookup-adjust-some v.grant_id grant _ b.grants g known)
    | inr t ↦ rw t (g, known)
  ],
)

reservation-Kept :
    (fresh : Fresh) (p n : ℕ) (x : Execution) (v : Reservation) (grant : String) (g : GrantState)
    (s : Projection)
    → (v.operation_id == "") ≡ false
    → lookup v.operation_id (ensure_budget s.ledger).reservations ≡ none
    → lookup grant (ensure_budget s.ledger).grants ≡ some g
    → Kept v.operation_id grant
        (normalized v)
        (ensure_budget (step s (reservation_row fresh p n x v).envelope).ledger)
unfolding step reservation_row apply_budget_event
reservation-Kept fresh p n x v grant g s named new known =
    rw named (apply_reservation-Kept v grant g (ensure_budget s.ledger) new known)

steps-rows :
    (s : Projection) (xs ys : List Row)
    → steps s (envelopes (xs ++ ys)) ≡ steps (steps s (envelopes xs)) (envelopes ys)
steps-rows s xs ys =
    ap (steps s) (map-append _ xs ys) ∙ steps-append s (envelopes xs) (envelopes ys)

-- The rows of a decision, from any state of the pass.
decision-Kept :
    (fresh : Fresh) (ps : ℕ) (x : Execution) (v : Reservation) (soft : Option SoftLimitSignal)
    (guard : Option GuardSignal) (s : Projection) (grant : String) (g : GrantState)
    → (v.operation_id == "") ≡ false
    → lookup v.operation_id (ensure_budget s.ledger).reservations ≡ none
    → lookup grant (ensure_budget s.ledger).grants ≡ some g
    → Kept v.operation_id grant
        (normalized v)
        (ensure_budget (steps s (envelopes (decision_rows fresh ps x v soft guard))).ledger)
unfolding decision_rows steps
decision-Kept fresh ps x v soft guard s grant g named new known =
    let n = x.last_sequence in
    let s₁ = step s (reservation_row fresh ps (n + 1) x v).envelope in
    let kept = reservation-Kept fresh ps (n + 1) x v grant g s named new known in
    let softs = soft_limit_rows fresh (ps + 1) (n + 2) soft in
    rw (steps-rows s₁ softs (guard_rows fresh _ _ guard)) (
      guard-Kept v.operation_id grant (normalized v) fresh _ _ guard _
        (soft-Kept v.operation_id grant (normalized v) fresh (ps + 1) (n + 2) soft s₁ kept))

-- After the rows of a decision on a new operation.
pub decision_rows-Kept :
    (fresh : Fresh) (ps : ℕ) (x : Execution) (v : Reservation) (soft : Option SoftLimitSignal)
    (guard : Option GuardSignal) (rows : List Row) (grant : String) (g : GrantState)
    → let b = ensure_budget (project (envelopes rows)).ledger in
      (v.operation_id == "") ≡ false
      → lookup v.operation_id b.reservations ≡ none
      → lookup grant b.grants ≡ some g
      → Kept v.operation_id grant (normalized v) (
          ensure_budget
            (project (envelopes (rows ++ decision_rows fresh ps x v soft guard))).ledger)
decision_rows-Kept fresh ps x v soft guard rows grant g named new known =
    let all = decision_rows fresh ps x v soft guard in
    let before = steps initial (envelopes rows) in
    let same : ensure_budget (project (envelopes (rows ++ all))).ledger
        ≡ ensure_budget (steps before (envelopes all)).ledger =
      project-budget (envelopes (rows ++ all))
      ∙ ap (λ s. ensure_budget s.ledger) (steps-rows initial rows all) in
    rw same (
      decision-Kept fresh ps x v soft guard before grant g named (rw project-budget at new)
        (rw project-budget at known))
