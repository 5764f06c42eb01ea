-- ===== src/Execution/Progress/Starts.antt =====
-- What one start and one finish do to the counters of a ledger
-- (`projectExecutionProgress` of src/execution/execution-progress.ts).
use documents_backend.Common.{ℕ, String, Bool, ◌≡◌, refl, Option, some, none, arith, eq_string}
use documents_backend.Common.Dict.{Dict, lookup}
use documents_backend.Execution.Types.{
  OperationKind, inference, tool_call, ProgressCounter, TokenUsage, Ledger,
}
use documents_backend.Execution.Events.{eq_type, Payload, Event}
use documents_backend.Execution.Progress.Counters.{record_started, record_finished, consume_tokens}
use documents_backend.Execution.Progress.BudgetEvents.{apply_budget_event}
use documents_backend.Execution.Progress.Consume.{consume_budget_reservation}
use documents_backend.Execution.Progress.Projection.{
  Start, start_of, count_start, count_finish, count_tokens,
}
use documents_backend.Execution.Progress.Totals.{
  IsTallied, IsTallied-start, IsTallied-finish, HasPhase, insert_new-HasPhase, insert_new-kept,
  adjust-HasPhase, IsBalanced, IsBalanced-start, IsBalanced-finish, IsCounted,
}

-- The counters of a ledger that the pass reads and changes.
pub record HasTotals (l : Ledger) : Type 0 where
  pub inference : IsBalanced l.operations.inference
  pub tool_call : IsBalanced l.operations.tool_call
  pub phases : IsTallied l.operations.inference l.inference_phases
  pub prompt : IsCounted l.prompt_tokens l.operations.inference
  pub generated : IsCounted l.generated_tokens l.operations.inference

-- A start of an inference left a counter of its phase.
abbrev pub IsKnownStart : Dict ProgressCounter → Start → Type 0
IsKnownStart d s = elim s.operation_kind [
  | inference ↦ (p : String) × (s.phase ≡ some p) × HasPhase d p
  | tool_call ↦ s.phase ≡ none
]

abbrev pub StartsKnown : Dict ProgressCounter → Dict Start → Type 0
StartsKnown d starts = (k : String) (s : Start) → lookup k starts ≡ some s → IsKnownStart d s

IsCounted-start :
    (u : TokenUsage) (c : ProgressCounter) → IsCounted u c → IsCounted u (record_started c)
unfolding record_started
IsCounted-start u c h = record { known = h.known; unknown = h.unknown }

IsCounted-consume :
    (u : TokenUsage) (c : ProgressCounter) (b : Bool) (n : Option ℕ)
    → IsCounted u c
    → IsCounted (consume_tokens u n) (record_finished b c)
unfolding record_finished consume_tokens
IsCounted-consume u c b none h = record { known = ground arith; unknown = omega (arith, h.unknown) }
IsCounted-consume u c b (some n) h = record { known = h.known; unknown = omega (arith, h.unknown) }

pub HasTotals-start :
    (k : OperationKind) (p q : Payload) (l : Ledger)
    → HasTotals l
    → HasTotals (count_start (start_of k p) q l)
unfolding count_start start_of
HasTotals-start inference p q l h = record {
  inference = IsBalanced-start _ h.inference;
  tool_call = h.tool_call;
  phases = IsTallied-start _ _ _ h.phases;
  prompt = IsCounted-start _ _ h.prompt;
  generated = IsCounted-start _ _ h.generated;
}
HasTotals-start tool_call p q l h = record {
  inference = h.inference;
  tool_call = IsBalanced-start _ h.tool_call;
  phases = h.phases;
  prompt = h.prompt;
  generated = h.generated;
}

-- A start that is known is finished in its own phase.
pub HasTotals-finish :
    (k : OperationKind) (phase loop : Option String) (b : Bool) (p : Payload) (l : Ledger)
    → let s : Start = record { operation_kind = k; phase = phase; loop_id = loop } in
      IsKnownStart l.inference_phases s
      → HasTotals l
      → HasTotals (count_tokens k p (count_finish b s l))
unfolding count_finish count_tokens
HasTotals-finish inference none loop b p l (q, e, there) h = cc
HasTotals-finish inference (some phase) loop b p l (q, e, (c, there)) h = record {
  inference = IsBalanced-finish b _ h.inference;
  tool_call = h.tool_call;
  phases = IsTallied-finish _ _ b phase (c, cc) h.phases;
  prompt = IsCounted-consume _ _ b p.prompt_tokens h.prompt;
  generated = IsCounted-consume _ _ b p.generated_tokens h.generated;
}
HasTotals-finish tool_call phase loop b p l e h = rw e (record {
  inference = h.inference;
  tool_call = IsBalanced-finish b _ h.tool_call;
  phases = h.phases;
  prompt = h.prompt;
  generated = h.generated;
})

-- Counting a finish leaves the phases that are there.
pub finish-kept :
    (k : OperationKind) (phase loop : Option String) (b : Bool) (p : Payload) (l : Ledger)
    (q : String)
    → HasPhase l.inference_phases q
    → HasPhase
        (count_tokens k p (
          count_finish b
            (record { operation_kind = k; phase = phase; loop_id = loop })
            l)).inference_phases
        q
unfolding count_finish count_tokens
finish-kept inference none loop b p l q h = h
finish-kept inference (some phase) loop b p l q h = adjust-HasPhase phase q _ _ h
finish-kept tool_call none loop b p l q h = h
finish-kept tool_call (some phase) loop b p l q h = adjust-HasPhase phase q _ _ h

pub start-kept :
    (k : OperationKind) (p : Payload) (l : Ledger) (q : String)
    → HasPhase l.inference_phases q
    → HasPhase (count_start (start_of k p) p l).inference_phases q
unfolding count_start start_of
start-kept inference p l q h = adjust-HasPhase _ q _ _ (insert_new-kept _ q l.inference_phases h)
start-kept tool_call p l q h = h

-- The start itself is known from then on.
pub start-known :
    (k : OperationKind) (p : Payload) (l : Ledger)
    → IsKnownStart (count_start (start_of k p) p l).inference_phases (start_of k p)
unfolding count_start start_of
start-known inference p l =
    (_, refl, adjust-HasPhase _ _ _ _ (insert_new-HasPhase _ l.inference_phases))
start-known tool_call p l = refl

IsKnownStart-kept :
    (d d' : Dict ProgressCounter) (k : OperationKind) (phase loop : Option String)
    → ((q : String) → HasPhase d q → HasPhase d' q)
    → IsKnownStart d (record { operation_kind = k; phase = phase; loop_id = loop })
    → IsKnownStart d' (record { operation_kind = k; phase = phase; loop_id = loop })
IsKnownStart-kept d d' inference phase loop keep (q, e, h) = (q, e, keep q h)
IsKnownStart-kept d d' tool_call phase loop keep e = e

pub StartsKnown-kept :
    (d d' : Dict ProgressCounter) (starts : Dict Start)
    → ((q : String) → HasPhase d q → HasPhase d' q)
    → StartsKnown d starts
    → StartsKnown d' starts
StartsKnown-kept d d' starts keep h k s e =
    IsKnownStart-kept d d' s.operation_kind s.phase s.loop_id keep (h k s e)

-- What the pass changes besides is the budget, the guards and the last sequence.
pub record SameCounters (l l' : Ledger) : Type 0 where
  pub operations : l'.operations ≡ l.operations
  pub inference_phases : l'.inference_phases ≡ l.inference_phases
  pub prompt_tokens : l'.prompt_tokens ≡ l.prompt_tokens
  pub generated_tokens : l'.generated_tokens ≡ l.generated_tokens

pub HasTotals-same : (l l' : Ledger) → SameCounters l l' → HasTotals l → HasTotals l'
HasTotals-same l l' same h = record {
  inference = rw same.operations h.inference;
  tool_call = rw same.operations h.tool_call;
  phases = rw (same.operations, same.inference_phases) h.phases;
  prompt = rw (same.operations, same.prompt_tokens) h.prompt;
  generated = rw (same.operations, same.generated_tokens) h.generated;
}

pub consume-SameCounters :
    (l : Ledger) (e : Event) → SameCounters l (consume_budget_reservation l e)
unfolding consume_budget_reservation
consume-SameCounters l e = record {
  operations = ground arith;
  inference_phases = ground arith;
  prompt_tokens = ground arith;
  generated_tokens = ground arith;
}

pub budget_event-SameCounters : (l : Ledger) (e : Event) → SameCounters l (apply_budget_event l e).0
unfolding apply_budget_event
budget_event-SameCounters l e = record {
  operations = ground arith;
  inference_phases = ground arith;
  prompt_tokens = ground arith;
  generated_tokens = ground arith;
}
