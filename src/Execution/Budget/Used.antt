-- ===== src/Execution/Budget/Used.antt =====
-- A reservation that is used up stays used up in the rest of the log
-- (src/execution/execution-progress.ts).
use documents_backend.Common.{
  String, Bool, ◌≡◌, refl, some, List, [], ◌∷◌, arith, str_eq, eq_iff, eq_string, ◌∙◌,
  if◌then◌else◌,
}
use documents_backend.Common.Dict.{lookup, lookup-adjust-some, lookup-insert}
use documents_backend.Execution.Types.{consumed, Reservation, Budget}
use documents_backend.Execution.Events.{eq_type, Event}
use documents_backend.Execution.Progress.BudgetEvents.{
  ensure_budget, apply_grant, apply_soft_limit, apply_reservation, normalized,
}
use documents_backend.Execution.Progress.Consume.{consume_in_budget}
use documents_backend.Execution.Progress.Preserve.{Rules, step-Holds}
use documents_backend.Execution.Progress.Projection.{Projection, step, steps}

module _ (id : String) where
  -- The operation's reservation is used up.
  abbrev pub IsUsed : Budget → Type 0
  IsUsed b = (r : Reservation) × (lookup id b.reservations ≡ some r) × (r.status ≡ consumed)

  consume_in_budget-IsUsed :
      (key : String) (v : Reservation) (w : Bool) (b : Budget)
      → IsUsed b
      → IsUsed (consume_in_budget key v w b)
  unfolding consume_in_budget
  consume_in_budget-IsUsed key v w b (r, found, used) = (
    (if str_eq key id then record r { status = consumed } else r),
    lookup-adjust-some key id (λ x. record x { status = consumed }) b.reservations r found,
    ground arith,
  )

  -- What is consumed is used up.
  pub consume_in_budget-IsUsed_after :
      (v : Reservation) (w : Bool) (b : Budget) (r : Reservation)
      → lookup id b.reservations ≡ some r
      → IsUsed (consume_in_budget id v w b)
  unfolding consume_in_budget
  consume_in_budget-IsUsed_after v w b r found = (
    record r { status = consumed },
    lookup-adjust-some id id (λ x. record x { status = consumed }) b.reservations r found
        ∙ ground (arith, eq_iff id id),
    refl,
  )

  apply_reservation-IsUsed :
      (v : Reservation) (b : Budget) → IsUsed b → IsUsed (apply_reservation v b)
  unfolding apply_reservation
  apply_reservation-IsUsed v b (r, found, used) = (
    r,
    ground (
      arith,
      found,
      eq_iff v.operation_id id,
      lookup-insert v.operation_id id (normalized v) b.reservations,
    ),
    used,
  )

  IsUsed-rules : Rules IsUsed (λ b r. Unit {0})
  unfolding apply_grant apply_soft_limit
  IsUsed-rules = record {
    grant = λ b h g. h;
    soft_limit = λ b h v. h;
    reserve = λ b h r _. apply_reservation-IsUsed r b h;
    consume = λ b h key r w _ _. consume_in_budget-IsUsed key r w b h;
  }

  -- No event makes it open again.
  pub steps-IsUsed :
      (s : Projection) (es : List Event)
      → IsUsed (ensure_budget s.ledger)
      → IsUsed (ensure_budget (steps s es).ledger)
  unfolding steps
  steps-IsUsed s [] h = h
  steps-IsUsed s (e ∷ es) h =
      steps-IsUsed (step s e) es
        (step-Holds IsUsed (λ b r. Unit {0}) IsUsed-rules s e h (λ _ _ v _. tt))
