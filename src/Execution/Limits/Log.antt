-- ===== src/Execution/Limits/Log.antt =====
-- The invariant of a whole log, and what keeps it when rows are appended.
use mathlib.Core.List.{map-append}
use documents_backend.Common.{◌≡◌, refl, ap, ◌∙◌, List, [], ◌∷◌, ◌++◌}
use documents_backend.Execution.Types.{Budget}
use documents_backend.Execution.Events.{Event, Row}
use documents_backend.Execution.Progress.BudgetEvents.{ensure_budget}
use documents_backend.Execution.Progress.Projection.{Projection, initial, step, steps, project}
use documents_backend.Execution.Service.Store.{envelopes}
use documents_backend.Execution.Limits.Budget.{IsWithin, CanReserve}
use documents_backend.Execution.Progress.Preserve.{IsAdmissible}
use documents_backend.Execution.Limits.Steps.{step-IsWithin}

pub steps-append :
    (s : Projection) (xs ys : List Event) → steps s (xs ++ ys) ≡ steps (steps s xs) ys
unfolding steps
steps-append s [] ys = refl
steps-append s (x ∷ xs) ys = steps-append (step s x) xs ys

-- The budget that a log projects to.
abbrev pub log_budget : List Row → Budget
log_budget rows = ensure_budget (project (envelopes rows)).ledger

abbrev pub LogWithin : List Row → Type 0
LogWithin rows = IsWithin (log_budget rows)

pub project-budget :
    (es : List Event) → ensure_budget (project es).ledger ≡ ensure_budget (steps initial es).ledger
unfolding project
project-budget es = refl

-- The ledger in the middle of the pass, after the rows so far.
abbrev pub after : List Row → Projection
after rows = steps initial (envelopes rows)

pub after-append :
    (rows : List Row) (row : Row) → after (rows ++ row ∷ []) ≡ step (after rows) row.envelope
unfolding steps
after-append rows row =
    ap (steps initial) (map-append _ rows (row ∷ []))
    ∙ steps-append initial (envelopes rows) (row.envelope ∷ [])

pub LogWithin-append :
    (rows : List Row) (row : Row)
    → LogWithin rows
    → IsAdmissible CanReserve (project (envelopes rows)).ledger row.envelope
    → LogWithin (rows ++ row ∷ [])
unfolding project
LogWithin-append rows row h can =
    rw (after-append rows row) (step-IsWithin (after rows) row.envelope h can)
