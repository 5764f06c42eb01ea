-- ===== src/Execution/Progress/Conservation.antt =====
-- The counters of the projected ledger agree with each other after every log
-- (`projectExecutionProgress` of src/execution/execution-progress.ts).
use documents_backend.Common.{
  String, ◌≡◌, refl, Option, some, none, List, [], ◌∷◌, arith, str_eq, eq_string, ◌==◌, Bool-cases,
  inl, inr, ◌&&◌, max,
}
use mathlib.Core.Path.{subst}
use documents_backend.Common.Dict.{Dict, lookup, insert, lookup-insert}
use documents_backend.Execution.Types.{OperationKind, ProgressCounter, Ledger}
use documents_backend.Execution.Events.{
  operation_started, operation_finished, progress_reported, eq_type, PolicySnapshot, Event,
}
use documents_backend.Execution.Progress.BudgetEvents.{apply_budget_event}
use documents_backend.Execution.Progress.Consume.{consume_budget_reservation}
use documents_backend.Execution.Progress.Projection.{
  Start, Projection, initial, start_of, on_started, on_known_start, on_finished, on_policy,
  on_operation, on_event, step, steps, project, operation_key, is_failed, is_policy,
}
use documents_backend.Execution.Progress.Totals.{total}
use documents_backend.Execution.Progress.Starts.{
  HasTotals, IsKnownStart, StartsKnown, HasTotals-start, HasTotals-finish, finish-kept, start-kept,
  start-known, StartsKnown-kept, SameCounters, HasTotals-same, consume-SameCounters,
  budget_event-SameCounters,
}

-- The invariant of the pass.
record Invariant (s : Projection) : Type 0 where
  pub totals : HasTotals s.ledger
  pub known : StartsKnown s.ledger.inference_phases s.starts

same-Invariant :
    (s : Projection) (l' : Ledger)
    → SameCounters s.ledger l'
    → Invariant s
    → Invariant (record s { ledger = l' })
same-Invariant s l' same h = record {
  totals = HasTotals-same s.ledger l' same h.totals;
  known =
      StartsKnown-kept s.ledger.inference_phases l'.inference_phases s.starts
        (λ q there. rw same.inference_phases there) h.known;
}

insert-StartsKnown :
    (d : Dict ProgressCounter) (starts : Dict Start) (key : String) (s : Start)
    → IsKnownStart d s
    → StartsKnown d starts
    → StartsKnown d (insert key s starts)
insert-StartsKnown d starts key s new h k t e = elim (Bool-cases (str_eq key k)) [
  | inl y ↦
      let same : s ≡ t = ground (arith, lookup-insert key k s starts) in
      subst (IsKnownStart d) same new
  | inr y ↦ h k t (ground (arith, lookup-insert key k s starts))
]

on_started-Invariant :
    (k : OperationKind) (e : Event) (s : Projection) → Invariant s → Invariant (on_started k e s)
unfolding on_started
on_started-Invariant k e s h =
    let l = consume_budget_reservation s.ledger e in
    let h' = same-Invariant s l (consume-SameCounters s.ledger e) h in
    record {
      totals = HasTotals-start k e.payload e.payload l h'.totals;
      known =
          insert-StartsKnown _ s.starts (operation_key e) (start_of k e.payload)
            (start-known k e.payload l)
            (StartsKnown-kept l.inference_phases _ s.starts (start-kept k e.payload l) h'.known);
    }

on_known_start-Invariant :
    (o : Option Start) (e : Event) (s : Projection)
    → lookup (operation_key e) s.starts ≡ o
    → Invariant s
    → Invariant (on_known_start o e s)
unfolding on_known_start
on_known_start-Invariant none e s found h = h
on_known_start-Invariant (some t) e s found h = record {
  totals =
      HasTotals-finish t.operation_kind t.phase t.loop_id (is_failed e.payload.status) e.payload
        s.ledger (h.known _ t found) h.totals;
  known =
      StartsKnown-kept s.ledger.inference_phases _ s.starts
        (finish-kept t.operation_kind t.phase t.loop_id (is_failed e.payload.status) e.payload
          s.ledger)
        h.known;
}

on_policy-Invariant :
    (o : Option PolicySnapshot) (s : Projection) → Invariant s → Invariant (on_policy o s)
unfolding on_policy
on_policy-Invariant none s h = h
on_policy-Invariant (some p) s h = elim (Bool-cases (p.loop_id == "")) [
  | inl t ↦ rw t h
  | inr t ↦ rw t (record { totals = h.totals; known = h.known })
]

on_operation-Invariant :
    (o : Option OperationKind) (e : Event) (s : Projection)
    → Invariant s
    → Invariant (on_operation o e s)
unfolding on_operation on_finished
on_operation-Invariant none e s h = h
on_operation-Invariant (some k) e s h = elim (Bool-cases (e.event_type == operation_started)) [
  | inl t ↦ rw t (on_started-Invariant k e s h)
  | inr t ↦ rw t (elim (Bool-cases (e.event_type == operation_finished)) [
    | inl u ↦ rw u (on_known_start-Invariant _ e s refl h)
    | inr u ↦ rw u h
  ])
]

on_event-Invariant : (e : Event) (s : Projection) → Invariant s → Invariant (on_event e s)
unfolding on_event
on_event-Invariant e s h =
    elim (Bool-cases (e.event_type == progress_reported && is_policy e.payload.kind)) [
      | inl t ↦ rw t (on_policy-Invariant e.payload.policy s h)
      | inr t ↦ rw t (on_operation-Invariant e.payload.operation_kind e s h)
    ]

step-Invariant : (s : Projection) (e : Event) → Invariant s → Invariant (step s e)
unfolding step
step-Invariant s e h =
    let l = record (s.ledger) { last_sequence = max s.ledger.last_sequence e.sequence } in
    let seen : Invariant (record s { ledger = l }) =
      same-Invariant s l
        (record {
          operations = refl;
          inference_phases = refl;
          prompt_tokens = refl;
          generated_tokens = refl;
        })
        h in
    let h' = same-Invariant (record s { ledger = l }) _ (budget_event-SameCounters l e) seen in
    elim (Bool-cases (apply_budget_event l e).1) [
      | inl t ↦ rw t h'
      | inr t ↦ rw t (on_event-Invariant e _ h')
    ]

steps-Invariant : (s : Projection) (es : List Event) → Invariant s → Invariant (steps s es)
unfolding steps
steps-Invariant s [] h = h
steps-Invariant s (e ∷ es) h = steps-Invariant (step s e) es (step-Invariant s e h)

initial-Invariant : Invariant initial
unfolding total lookup
initial-Invariant = record {
  totals = record {
    inference = record { failed = omega arith; unfinished = omega arith; settled = omega arith };
    tool_call = record { failed = omega arith; unfinished = omega arith; settled = omega arith };
    phases = record { started = refl; finished = refl; failed = refl };
    prompt = record { known = refl; unknown = omega arith };
    generated = record { known = refl; unknown = omega arith };
  };
  known = λ k s e. cc;
}

-- After every log: for inferences and for tool calls, no more operations failed than finished, no
-- more are unfinished than started, and every started one has finished or is unfinished; the
-- counters of the inference phases add up to the counter of all inferences; and a token total is
-- marked as known exactly if it counts no operation that lacked the number, of which there are no
-- more than finished inferences.
pub project-HasTotals : (es : List Event) → HasTotals (project es).ledger
unfolding project
project-HasTotals es =
    let h = (steps-Invariant initial es initial-Invariant).totals in
    record {
      inference = h.inference;
      tool_call = h.tool_call;
      phases = h.phases;
      prompt = h.prompt;
      generated = h.generated;
    }
