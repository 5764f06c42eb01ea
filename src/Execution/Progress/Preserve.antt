-- ===== src/Execution/Progress/Preserve.antt =====
-- A property of the budget through the projection (src/execution/execution-progress.ts): what every
-- change of the budget keeps, every event keeps.
use documents_backend.Common.{
  String, Bool, true, ◌≡◌, refl, Option, none, some, [], ◌==◌, eq_string, arith, Bool-cases, inl,
  inr, get_or, max, sym, ◌⊎◌,
}
use mathlib.Core.Path.{subst}
use documents_backend.Common.Dict.{lookup}
use documents_backend.Execution.Types.{
  OperationKind, eq_kind, status_eq, reserved, Reservation, Budget, Grant, SoftLimitSignal,
  GuardSignal, Ledger,
}
use documents_backend.Execution.Events.{
  PayloadKind, budget_grant, budget_soft_limit_reached, loop_guard_triggered, budget_reservation,
  policy_snapshot, ledger_snapshot, tool_output, other_kind, progress_reported, operation_started,
  eq_type, type_eq_iff, Payload, Event,
}
use documents_backend.Execution.Progress.BudgetEvents.{
  ensure_budget, apply_grant, apply_soft_limit, apply_reservation, on_budget, on_guard, by_kind,
  apply_budget_event,
}
use documents_backend.Execution.Progress.Consume.{
  consumable, consumable_sound, consume_in_budget, consume_known, consume_start, consume_operation,
  consume_budget_reservation,
}
use documents_backend.Execution.Progress.Projection.{Projection, on_event, step}

-- The changes of a budget keep the property `P`; a reservation is one that `Can` be made.
pub record Rules (P : Budget → Type 0) (Can : Budget → Reservation → Type 0) : Type 0 where
  pub grant : (b : Budget) → P b → (g : Grant) → P (apply_grant g b)
  pub soft_limit : (b : Budget) → P b → (v : SoftLimitSignal) → P (apply_soft_limit v b)
  pub reserve : (b : Budget) → P b → (r : Reservation) → Can b r → P (apply_reservation r b)
  pub consume :
      (b : Budget)
      → P b
      → (id : String) (r : Reservation) (w : Bool) → lookup id b.reservations ≡ some r
      → status_eq r.status reserved ≡ true
      → P (consume_in_budget id r w b)

-- What is asked of an event: a reservation that it makes can be made.
abbrev pub IsAdmissible : (Budget → Reservation → Type 0) → Ledger → Event → Type 0
IsAdmissible Can l e =
    e.event_type ≡ progress_reported
    → e.payload.kind ≡ budget_reservation
    → (v : Reservation) → e.payload.reservation ≡ some v
    → Can (ensure_budget l) v

module _ (P : Budget → Type 0) (Can : Budget → Reservation → Type 0) (rules : Rules P Can) where
  abbrev Holds : Ledger → Type 0
  Holds l = P (ensure_budget l)

  on_budget-Holds :
      {A : Type 0} (key : A → String) (f : A → Budget → Budget) (o : Option A) (l : Ledger)
      → Holds l
      → ((a : A) → o ≡ some a → P (f a (ensure_budget l)))
      → Holds (on_budget key f o l)
  on_budget-Holds key f none l h keep = h
  on_budget-Holds key f (some a) l h keep = elim (Bool-cases (key a == "")) [
    | inl t ↦ rw t h
    | inr t ↦ rw t (keep a refl)
  ]

  on_guard-budget :
      (o : Option GuardSignal) (l : Ledger) → (on_guard o l).operation_budget ≡ l.operation_budget
  unfolding on_guard
  on_guard-budget o l = ground arith

  by_kind-Holds :
      (k : PayloadKind) (p : Payload) (l : Ledger)
      → Holds l
      → (k ≡ budget_reservation
          → (v : Reservation) → p.reservation ≡ some v
          → Can (ensure_budget l) v)
      → Holds (by_kind k p l).0
  unfolding by_kind
  by_kind-Holds budget_grant p l h can =
      on_budget-Holds _ apply_grant p.grant l h (λ g _. rules.grant _ h g)
  by_kind-Holds budget_soft_limit_reached p l h can =
      on_budget-Holds _ apply_soft_limit p.signal l h (λ s _. rules.soft_limit _ h s)
  by_kind-Holds budget_reservation p l h can =
      on_budget-Holds _ apply_reservation p.reservation l h
        (λ v e. rules.reserve _ h v (can refl v e))
  by_kind-Holds loop_guard_triggered p l h can = rw (on_guard-budget p.loop_guard_signal l) h
  by_kind-Holds policy_snapshot p l h can = h
  by_kind-Holds ledger_snapshot p l h can = h
  by_kind-Holds tool_output p l h can = h
  by_kind-Holds other_kind p l h can = h

  apply_budget_event-Holds :
      (l : Ledger) (e : Event) → Holds l → IsAdmissible Can l e → Holds (apply_budget_event l e).0
  unfolding apply_budget_event
  apply_budget_event-Holds l e h can = elim (Bool-cases (e.event_type == progress_reported)) [
    | inl t ↦ rw t (
        by_kind-Holds e.payload.kind e.payload l h
          (can ((type_eq_iff e.event_type progress_reported).0 t)))
    | inr t ↦ rw t h
  ]

  consume_known-Holds :
      (id : String) (p : Payload) (b : Budget) (l : Ledger) (o : Option Reservation)
      → Holds l
      → P b
      → ((r : Reservation)
          → o ≡ some r
          → (lookup id b.reservations ≡ some r) × (status_eq r.status reserved ≡ true))
      → Holds (consume_known id p b l o)
  unfolding consume_known
  consume_known-Holds id p b l none h hb sound = h
  consume_known-Holds id p b l (some r) h hb sound =
      let (found, held) = sound r refl in
      rules.consume b hb id r p.budget_soft_limit_warning_applied found held

  consume_start-Holds :
      (id : String) (k : OperationKind) (p : Payload) (o : Option Budget) (l : Ledger)
      → l.operation_budget ≡ o
      → Holds l
      → Holds (consume_start id k p o l)
  unfolding consume_start
  consume_start-Holds id k p none l e h = h
  consume_start-Holds id k p (some b) l e h =
      consume_known-Holds id p b l (consumable id k b) h
        (subst (λ o. P (get_or o (record { grants = []; reservations = [] }))) e h)
        (λ r found. consumable_sound id k b found)

  consume_operation-Holds :
      (o : Option OperationKind) (e : Event) (l : Ledger)
      → Holds l
      → Holds (consume_operation o e l)
  unfolding consume_operation
  consume_operation-Holds none e l h = h
  consume_operation-Holds (some k) e l h =
      consume_start-Holds _ k e.payload l.operation_budget l refl h

  consume-Holds : (l : Ledger) (e : Event) → Holds l → Holds (consume_budget_reservation l e)
  unfolding consume_budget_reservation
  consume-Holds l e h = elim (Bool-cases (e.event_type == operation_started)) [
    | inl t ↦ rw t (consume_operation-Holds e.payload.operation_kind e l h)
    | inr t ↦ rw t h
  ]

  abbrev OptionHolds : Option Budget → Type 0
  OptionHolds o = P (get_or o (record { grants = []; reservations = [] }))

  on_event-budget :
      (e : Event) (s : Projection)
      → ((on_event e s).ledger.operation_budget ≡ s.ledger.operation_budget)
        ⊎ ((on_event e s).ledger.operation_budget
            ≡ (consume_budget_reservation s.ledger e).operation_budget)
  unfolding on_event
  on_event-budget e s = ground arith

  on_event-Holds : (e : Event) (s : Projection) → Holds s.ledger → Holds (on_event e s).ledger
  on_event-Holds e s h = elim (on_event-budget e s) [
    | inl same ↦ subst OptionHolds (sym same) h
    | inr consumed ↦ subst OptionHolds (sym consumed) (consume-Holds s.ledger e h)
  ]

  pub step-Holds :
      (s : Projection) (e : Event)
      → Holds s.ledger
      → IsAdmissible Can s.ledger e
      → Holds (step s e).ledger
  unfolding step
  step-Holds s e h can =
      let l = record (s.ledger) { last_sequence = max s.ledger.last_sequence e.sequence } in
      let h' = apply_budget_event-Holds l e h can in
      elim (Bool-cases (apply_budget_event l e).1) [
        | inl t ↦ rw t h'
        | inr t ↦ rw t (on_event-Holds e _ h')
      ]
