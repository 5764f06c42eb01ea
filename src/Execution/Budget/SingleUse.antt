-- ===== src/Execution/Budget/SingleUse.antt =====
-- One reservation lets one operation start: the check of src/execution/inference-budget-policy.ts
-- against the projection of src/execution/execution-progress.ts.
use documents_backend.Common.{
  List, [], ap, sym, true, ◌≡◌, ◌≢◌, refl, Option, some, none, arith, Bool-cases, inl, inr, ◌==◌,
  eq_string, eq_option, option_eq_iff, get_or, max, eq_iff, ok, ◌∙◌,
}
use mathlib.Core.Path.{subst}
use documents_backend.Common.Dict.{lookup}
use documents_backend.Execution.Types.{
  OperationKind, eq_kind, status_eq, reserved, consumed, Reservation, GrantState, Budget,
  GuardState, Ledger,
}
use documents_backend.Execution.Events.{operation_started, eq_type, type_eq_iff, Event}
use documents_backend.Execution.Entity.{Execution}
use documents_backend.Execution.Progress.BudgetEvents.{apply_budget_event, ensure_budget}
use documents_backend.Execution.Progress.Consume.{
  consumable, consume_in_budget, consume_budget_reservation,
}
use documents_backend.Execution.Progress.Projection.{Projection, start_of, count_start, step, steps}
use documents_backend.Execution.Budget.Used.{IsUsed, steps-IsUsed, consume_in_budget-IsUsed_after}
use documents_backend.Execution.Budget.Governed.{
  GovernedStart, governed_identity, governed_budget_start, identity_matches, check_reservation,
  assert_budget_projection,
}

-- What the check of a start has seen in the budget.
record Held (i : GovernedStart) (b : Budget) : Type 0 where
  pub grant : GrantState
  pub reservation : Reservation
  pub granted : lookup i.grant_id b.grants ≡ some grant
  pub found : lookup i.operation_id b.reservations ≡ some reservation
  pub matches : identity_matches i grant reservation ≡ true

check_reservation-Held :
    (i : GovernedStart) (b : Budget) (guard : GuardState) (g : Option GrantState)
    (r : Option Reservation)
    → lookup i.grant_id b.grants ≡ g
    → lookup i.operation_id b.reservations ≡ r
    → check_reservation i guard g r ≡ ok tt
    → Held i b
unfolding check_reservation
check_reservation-Held i b guard none r eg er h = cc
check_reservation-Held i b guard (some g) none eg er h = cc
check_reservation-Held i b guard (some g) (some r) eg er h =
    elim (Bool-cases (identity_matches i g r)) [
      | inl t ↦ record { grant = g; reservation = r; granted = eg; found = er; matches = t }
      | inr t ↦ let bad = rw t at h in cc
    ]

assert_budget_projection-Held :
    (i : GovernedStart) (b : Budget) (guard : GuardState)
    → assert_budget_projection i (some b) guard ≡ ok tt
    → Held i b
unfolding assert_budget_projection
assert_budget_projection-Held i b guard h = check_reservation-Held i b guard _ _ refl refl h

matches-facts :
    (i : GovernedStart) (g : GrantState) (r : Reservation)
    → identity_matches i g r ≡ true
    → (status_eq r.status reserved ≡ true)
      × (r.grant_id ≡ i.grant_id)
      × (r.operation_kind ≡ some i.operation_kind)
unfolding identity_matches
matches-facts i g r h = (
  ground arith,
  (eq_iff r.grant_id i.grant_id).0 (ground arith),
  (option_eq_iff r.operation_kind (some i.operation_kind)).0 (ground arith),
)

-- A reservation that is held is the one that the start consumes.
Held-consumable :
    (i : GovernedStart) (b : Budget) (h : Held i b)
    → consumable i.operation_id i.operation_kind b ≡ some h.reservation
unfolding consumable
Held-consumable i b h =
    let (open_, same, kind) = matches-facts i h.grant h.reservation h.matches in
    let known = (option_eq_iff h.reservation.operation_kind (some i.operation_kind)).1 kind in
    let granted : lookup h.reservation.grant_id b.grants ≡ some h.grant = rw same h.granted in
    ground (arith, h.found, granted)

-- Of an operation whose reservation is used up, the check refuses every start.
used-refused :
    (i : GovernedStart) (b : Budget) (guard : GuardState) (r : Reservation)
    → lookup i.operation_id b.reservations ≡ some r
    → r.status ≡ consumed
    → assert_budget_projection i (some b) guard ≢ ok tt
used-refused i b guard r found used h =
    let held = assert_budget_projection-Held i b guard h in
    let (open_, _, _) = matches-facts i held.grant held.reservation held.matches in
    let same : held.reservation ≡ r = ground (arith, held.found) in
    let bad = rw (same, used) at open_ in cc

governed_budget_start-started :
    (x : Execution) (e : Event) (i : GovernedStart)
    → governed_budget_start x e ≡ ok (some i)
    → ((e.event_type == operation_started) ≡ true)
      × (kind : OperationKind) × (e.payload.operation_kind ≡ some kind)
      × (i ≡ governed_identity kind e)
unfolding governed_budget_start
governed_budget_start-started x e i h = ground arith

-- A start that is counted leaves the budget.
count_start-budget :
    (k : OperationKind) (e : Event) (l : Ledger)
    → (count_start (start_of k e.payload) e.payload l).operation_budget ≡ l.operation_budget
unfolding count_start
count_start-budget k e l = refl

-- The start of an operation is no budget event: it goes to the counters.
step-start :
    (s : Projection) (e : Event) (k : OperationKind)
    → (e.event_type == operation_started) ≡ true
    → e.payload.operation_kind ≡ some k
    → (step s e).ledger.operation_budget
      ≡ (consume_budget_reservation
          (record (s.ledger) { last_sequence = max s.ledger.last_sequence e.sequence })
          e).operation_budget
unfolding step apply_budget_event
step-start s e k started kind =
    let ty = (type_eq_iff e.event_type operation_started).0 started in rw (ty, kind) refl

consume-held :
    (l : Ledger) (e : Event) (k : OperationKind) (b : Budget) (r : Reservation)
    → (e.event_type == operation_started) ≡ true
    → e.payload.operation_kind ≡ some k
    → l.operation_budget ≡ some b
    → consumable (get_or e.operation_id "") k b ≡ some r
    → (consume_budget_reservation l e).operation_budget
      ≡ some (
          consume_in_budget
            (get_or e.operation_id "")
            r
            e.payload.budget_soft_limit_warning_applied
            b)
unfolding consume_budget_reservation
consume-held l e k b r started kind budget held =
    let ty = (type_eq_iff e.event_type operation_started).0 started in
    rw (ty, kind, budget, held) refl

-- The start uses its reservation up.
started-IsUsed :
    (s : Projection) (e : Event) (k : OperationKind) (b : Budget) (guard : GuardState)
    → (e.event_type == operation_started) ≡ true
    → e.payload.operation_kind ≡ some k
    → s.ledger.operation_budget ≡ some b
    → assert_budget_projection (governed_identity k e) (some b) guard ≡ ok tt
    → IsUsed (get_or e.operation_id "") (ensure_budget (step s e).ledger)
unfolding governed_identity
started-IsUsed s e k b guard started kind budget accepted =
    let key = get_or e.operation_id "" in
    let w = e.payload.budget_soft_limit_warning_applied in
    let held = assert_budget_projection-Held (governed_identity k e) b guard accepted in
    let l = record (s.ledger) { last_sequence = max s.ledger.last_sequence e.sequence } in
    let moved =
      step-start s e k started kind
      ∙ consume-held l e k b held.reservation started kind budget
          (Held-consumable (governed_identity k e) b held) in
    subst (λ o. IsUsed key (get_or o (record { grants = []; reservations = [] }))) (sym moved)
      (consume_in_budget-IsUsed_after key held.reservation w b held.reservation held.found)

refused-in :
    (i : GovernedStart) (o : Option Budget) (guard : GuardState)
    → IsUsed i.operation_id (get_or o (record { grants = []; reservations = [] }))
    → assert_budget_projection i o guard ≢ ok tt
unfolding assert_budget_projection
refused-in i none guard used h = cc
refused-in i (some b) guard (r, found, used) h = used-refused i b guard r found used h

accepted-budget :
    (i : GovernedStart) (o : Option Budget) (guard : GuardState)
    → assert_budget_projection i o guard ≡ ok tt
    → (b : Budget) × (o ≡ some b)
unfolding assert_budget_projection
accepted-budget i none guard h = cc
accepted-budget i (some b) guard h = (b, refl)

-- An inference or a tool call that a budget governs is started once: after the check accepted its
-- start and the start is in the log, whatever events follow, the check refuses every start with
-- the same operation identifier.
pub governed-single_use :
    (x : Execution) (e : Event) (i : GovernedStart) (s : Projection) (guard : GuardState)
    → governed_budget_start x e ≡ ok (some i)
    → assert_budget_projection i s.ledger.operation_budget guard ≡ ok tt
    → (es : List Event) (later : GovernedStart) (guard' : GuardState)
    → later.operation_id ≡ i.operation_id
    → assert_budget_projection later (steps (step s e) es).ledger.operation_budget guard' ≢ ok tt
unfolding governed_identity
governed-single_use x e i s guard governed accepted es later guard' same h =
    let (b, budget) = accepted-budget i s.ledger.operation_budget guard accepted in
    let (started, k, kind, identity) = governed_budget_start-started x e i governed in
    let used =
      started-IsUsed s e k b guard started kind budget (rw (budget, identity) at accepted) in
    refused-in later _ guard'
      (rw (same ∙ ap (λ j. j.operation_id) identity)
        (steps-IsUsed (get_or e.operation_id "") (step s e) es used))
      h
