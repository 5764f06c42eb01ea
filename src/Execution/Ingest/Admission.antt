-- ===== src/Execution/Ingest/Admission.antt =====
-- What `acceptEvents` of src/execution/execution.service.ts lets into a log.
use documents_backend.Common.{
  ℕ, ◌+◌, false, not, ◌&&◌, ◌≡◌, refl, Option, none, some, List, [], ◌∷◌, ◌++◌, arith, ◌==◌,
  eq_string, inl, inr, ◌⊎◌, any, all, Bool-cases, ok, >>=-eq-ok, throw_if-eq-ok,
}
use documents_backend.Execution.Events.{progress_reported, eq_type, type_eq_iff, Event, Row}
use documents_backend.Execution.Entity.{Execution, is_terminal}
use documents_backend.Execution.Lifecycle.Events.{
  validate_operation_lifecycle, validate_state_transition, materialize_state,
}
use documents_backend.Execution.Limits.Service.{IsForeign}
use documents_backend.Execution.Ingest.{
  is_not_before, is_occupied, has_event, is_unknown_cause, Incoming, Surroundings, is_budget_kind,
  validate_incoming_event, validate_operation_budget_start,
}
use documents_backend.Execution.Ingest.Loop.{
  Loop, row_of, append_event, accept_new, accept_for, target_of, accept_one,
}

-- A round that appended the event's row: it is no decision of the budget, and its operation's
-- attempt was checked.
pub record IsAppended (i : Incoming) (l l' : Loop) : Type 0 where
  pub rows : l'.rows ≡ l.rows ++ row_of (l.sequence + 1) i ∷ []
  pub sequence : l'.sequence ≡ l.sequence + 1
  pub accepted : l'.accepted ≡ l.accepted + 1
  pub duplicates : l'.duplicates ≡ l.duplicates
  pub foreign : IsForeign (row_of (l.sequence + 1) i)
  pub checked : validate_operation_lifecycle l.rows (row_of (l.sequence + 1) i).envelope ≡ ok tt

-- A round that met an event of the log.
pub record IsSkipped (l l' : Loop) : Type 0 where
  pub rows : l'.rows ≡ l.rows
  pub sequence : l'.sequence ≡ l.sequence
  pub accepted : l'.accepted ≡ l.accepted
  pub duplicates : l'.duplicates ≡ l.duplicates + 1

validate_incoming_event-foreign :
    (w : Surroundings) (root : Execution) (i : Incoming)
    → validate_incoming_event w root i ≡ ok tt
    → (i.event.event_type == progress_reported && is_budget_kind i.event.payload.kind) ≡ false
unfolding validate_incoming_event
validate_incoming_event-foreign w root i h = ground arith

foreign :
    (i : Incoming) (n : ℕ)
    → (i.event.event_type == progress_reported && is_budget_kind i.event.payload.kind) ≡ false
    → IsForeign (row_of n i)
foreign i n h type =
    let t = (type_eq_iff i.event.event_type progress_reported).1 type in ground arith

accept_new-ok :
    (w : Surroundings) (i : Incoming) (target : Execution) (l l' : Loop)
    → accept_new w i target l ≡ ok l'
    → (validate_operation_lifecycle l.rows i.event ≡ ok tt)
      × ((x : Execution) × (l' ≡ append_event i x l))
unfolding accept_new
accept_new-ok w i target l l' h =
    let (_, e₁) = throw_if-eq-ok (is_terminal l.root.status) _ _ h in
    let (_, e₂) = throw_if-eq-ok (any (is_occupied i) l.rows) _ _ e₁ in
    let (_, e₃) = throw_if-eq-ok (any (is_not_before i) l.rows) _ _ e₂ in
    let (_, e₄) = throw_if-eq-ok (is_unknown_cause i l.rows) _ _ e₃ in
    let (_, e₅) = throw_if-eq-ok (not (all w.has_artifact i.artifact_refs)) _ _ e₄ in
    let (_, checked, e₆) = >>=-eq-ok (validate_operation_lifecycle l.rows i.event) _ e₅ in
    let (_, _, e₇) = >>=-eq-ok (validate_operation_budget_start l.rows target i.event) _ e₆ in
    let (_, _, e₈) = >>=-eq-ok (validate_state_transition target i.event) _ e₇ in
    let (x, _, e₉) = >>=-eq-ok (materialize_state target i.event) _ e₈ in (checked, (x, cc))

same-checked :
    (rows : List Row) (e : Event) (n : ℕ)
    → validate_operation_lifecycle rows e ≡ ok tt
    → validate_operation_lifecycle rows (record e { sequence = n }) ≡ ok tt
unfolding validate_operation_lifecycle
same-checked rows e n h = h

appended :
    (i : Incoming) (x : Execution) (l l' : Loop)
    → (i.event.event_type == progress_reported && is_budget_kind i.event.payload.kind) ≡ false
    → validate_operation_lifecycle l.rows i.event ≡ ok tt
    → l' ≡ append_event i x l
    → IsAppended i l l'
unfolding append_event
appended i x l l' allowed checked same = rw same (record {
  rows = refl;
  sequence = refl;
  accepted = refl;
  duplicates = refl;
  foreign = foreign i (l.sequence + 1) allowed;
  checked = same-checked l.rows i.event (l.sequence + 1) checked;
})

accept_for-ok :
    (w : Surroundings) (i : Incoming) (o : Option Execution) (l l' : Loop)
    → (i.event.event_type == progress_reported && is_budget_kind i.event.payload.kind) ≡ false
    → accept_for w i o l ≡ ok l'
    → IsSkipped l l' ⊎ IsAppended i l l'
unfolding accept_for
accept_for-ok w i none l l' allowed h = cc
accept_for-ok w i (some target) l l' allowed h = elim (Bool-cases (has_event i.event_id l.rows)) [
  | inl t ↦
      let same : l' ≡ record l { duplicates = l.duplicates + 1 } = ground arith in
      inl (rw same (record { rows = refl; sequence = refl; accepted = refl; duplicates = refl }))
  | inr t ↦
      let new : accept_new w i target l ≡ ok l' = ground arith in
      let (checked, (x, same)) = accept_new-ok w i target l l' new in
      inr (appended i x l l' allowed checked same)
]

pub accept_one-ok :
    (w : Surroundings) (i : Incoming) (l l' : Loop)
    → accept_one w i l ≡ ok l'
    → IsSkipped l l' ⊎ IsAppended i l l'
unfolding accept_one
accept_one-ok w i l l' h =
    let (_, valid, e) = >>=-eq-ok (validate_incoming_event w l.root i) _ h in
    accept_for-ok w i (target_of i l) l l' (validate_incoming_event-foreign w l.root i valid) e
