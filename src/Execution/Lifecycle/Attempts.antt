-- ===== src/Execution/Lifecycle/Attempts.antt =====
-- The starts and finishes in a log whose events went through `validateOperationLifecycle` of
-- src/execution/execution.service.ts.
use documents_backend.Common.{
  ℕ, ◌+◌, ◌≤◌, Bool, true, false, ◌≡◌, refl, sym, ◌∙◌, none, some, List, [], ◌∷◌, ◌++◌, arith, inl,
  inr, Bool-cases, Option-cases, eq_string, eq_option, option_eq_iff, if◌then◌else◌, ok, find,
}
use documents_backend.Execution.Types.{eq_kind}
use documents_backend.Execution.Events.{
  EventType, operation_started, operation_finished, eq_type, type_eq_iff, Event, Row,
}
use documents_backend.Execution.Lifecycle.Events.{is_related, validate_operation_lifecycle}

-- A log each of whose events was checked against the log before it.
pub data Accepted : List Row → Type 0 where
  start : Accepted []
  more :
      {rows : List Row}
      → Accepted rows
      → (row : Row) → validate_operation_lifecycle rows row.envelope ≡ ok tt
      → Accepted (rows ++ row ∷ [])

abbrev pub one_if : Bool → ℕ
one_if b = if b then 1 else 0

-- How many events of this type the attempt of `e` has.
abbrev pub count : EventType → Event → List Row → ℕ
count type e [] = 0
count type e (row ∷ rows) = one_if (is_related type e row) + count type e rows

count-append :
    (type : EventType) (e : Event) (rows : List Row) (row : Row)
    → count type e (rows ++ row ∷ []) ≡ count type e rows + one_if (is_related type e row)
count-append type e [] row = omega arith
count-append type e (x ∷ rows) row = omega (arith, count-append type e rows row)

count-none :
    (type : EventType) (e : Event) (rows : List Row)
    → find (is_related type e) rows ≡ none
    → count type e rows ≡ 0
count-none type e [] h = refl
count-none type e (x ∷ rows) h = ground (arith, count-none type e rows)

count-some :
    (type : EventType) (e : Event) (rows : List Row) {row : Row}
    → find (is_related type e) rows ≡ some row
    → 1 ≤ count type e rows
count-some type e [] h = cc
count-some type e (x ∷ rows) {row} h = ground (arith, count-some type e rows {row = row})

-- The events of one attempt are counted alike from each of them.
count-same :
    (type : EventType) (e f : Event) (rows : List Row)
    → e.operation_id ≡ f.operation_id
    → e.attempt_id ≡ f.attempt_id
    → count type e rows ≡ count type f rows
count-same type e f rows same_operation same_attempt = rw (same_operation, same_attempt) refl

one_if-le : (b : Bool) → one_if b ≤ 1
one_if-le b = ground arith

-- An event that is related is of that type, and belongs to the same attempt.
related :
    (type : EventType) (e : Event) (row : Row) (rows : List Row)
    → is_related type e row ≡ true
    → (row.envelope.event_type ≡ type)
      × ((t : EventType) → count t e rows ≡ count t row.envelope rows)
related type e row rows h =
    let same_operation =
      (option_eq_iff row.envelope.operation_id e.operation_id).0 (ground arith) in
    let same_attempt = (option_eq_iff row.envelope.attempt_id e.attempt_id).0 (ground arith) in
    (
      (type_eq_iff row.envelope.event_type type).0 (ground arith),
      (λ t. count-same t e row.envelope rows (sym same_operation) (sym same_attempt)),
    )

-- At most one start, and a finish only after it.
pub record IsOnce (e : Event) (rows : List Row) : Type 0 where
  pub started : count operation_started e rows ≤ 1
  pub finished : count operation_finished e rows ≤ count operation_started e rows

module _ (e : Event) (rows : List Row) (row : Row) (h : IsOnce e rows)
    (valid : validate_operation_lifecycle rows row.envelope ≡ ok tt) where
  -- What a check that passed has seen.
  start-new :
      row.envelope.event_type ≡ operation_started → count operation_started row.envelope rows ≡ 0
  unfolding validate_operation_lifecycle
  start-new type = elim (Option-cases (find (is_related operation_started row.envelope) rows)) [
    | inl e₁ ↦ count-none operation_started row.envelope rows e₁
    | inr (x, e₁) ↦ let bad = rw (type, e₁) at valid in cc
  ]

  finish-new :
      row.envelope.event_type ≡ operation_finished
      → (1 ≤ count operation_started row.envelope rows)
        × (count operation_finished row.envelope rows ≡ 0)
  unfolding validate_operation_lifecycle
  finish-new type = elim (Option-cases (find (is_related operation_started row.envelope) rows)) [
    | inl e₁ ↦ let bad = rw (type, e₁) at valid in cc
    | inr (x, e₁) ↦ elim (Option-cases (find (is_related operation_finished row.envelope) rows)) [
      | inl e₂ ↦ (
        count-some operation_started row.envelope rows e₁,
        count-none operation_finished row.envelope rows e₂,
      )
      | inr (y, e₂) ↦ let bad = rw (type, e₁, e₂) at valid in cc
    ]
  ]

  more-IsOnce : IsOnce e (rows ++ row ∷ [])
  more-IsOnce =
      let starts = count-append operation_started e rows row in
      let finishes = count-append operation_finished e rows row in
      elim (Bool-cases (is_related operation_started e row)) [
        | inl t ↦
            let (type, same) = related operation_started e row rows t in
            let none_started = same operation_started ∙ start-new type in
            let other : is_related operation_finished e row ≡ false = rw type (ground arith) in
            record {
              started = rw (starts, t) (omega (arith, none_started));
              finished = rw (finishes, starts, other, t) (omega (arith, h.finished));
            }
        | inr t ↦ elim (Bool-cases (is_related operation_finished e row)) [
          | inl u ↦
              let (type, same) = related operation_finished e row rows u in
              let (some_started, none_finished) = finish-new type in
              let before = same operation_started in
              let done = same operation_finished ∙ none_finished in
              record {
                started = rw (starts, t) (omega (arith, h.started));
                finished = rw (finishes, starts, t, u) (omega (arith, some_started, before, done));
              }
          | inr u ↦ record {
            started = rw (starts, t) (omega (arith, h.started));
            finished = rw (finishes, starts, t, u) (omega (arith, h.finished));
          }
        ]
      ]

-- In a log whose events were all checked, every attempt of an operation starts at most once, and
-- finishes at most once and only if it has started.
pub Accepted-IsOnce : {rows : List Row} → Accepted rows → (e : Event) → IsOnce e rows
Accepted-IsOnce start e = record { started = omega arith; finished = omega arith }
Accepted-IsOnce (more {rows} h row valid) e = more-IsOnce e rows row (Accepted-IsOnce h e) valid
