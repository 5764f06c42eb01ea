-- ===== src/Execution/Ingest/Log.antt =====
-- The log after `acceptEvents` of src/execution/execution.service.ts.
use mathlib.Core.List.{append_assoc, append-nil}
use documents_backend.Common.{
  ℕ, ◌+◌, String, ◌||◌, ltb, eq_nat, ◌≡◌, refl, ap, sym, ◌∙◌, List, [], ◌∷◌, ◌++◌, length, arith,
  ◌==◌, eq_string, inl, inr, ok, >>=-eq-ok, throw_if-eq-ok,
}
use documents_backend.Execution.Events.{eq_type, Row}
use documents_backend.Execution.Entity.{Execution}
use documents_backend.Execution.Service.Store.{Store, find_root}
use documents_backend.Execution.Lifecycle.Events.{validate_operation_lifecycle}
use documents_backend.Execution.Lifecycle.Attempts.{Accepted, more}
use documents_backend.Execution.Limits.Service.{Reach, recorded, updated, IsForeign}
use documents_backend.Execution.Ingest.{Incoming, Surroundings}
use documents_backend.Execution.Ingest.Loop.{
  Loop, row_of, accept_one, accept_all, AcceptReply, accepted_store, accepted_reply, first_round,
  accept_events,
}
use documents_backend.Execution.Ingest.Admission.{accept_one-ok}

-- A property of logs that a foreign, checked row keeps.
abbrev Keeps : (List Row → Type 0) → Type 0
Keeps P =
    (rows : List Row) (row : Row)
    → P rows
    → IsForeign row
    → validate_operation_lifecycle rows row.envelope ≡ ok tt
    → P (rows ++ row ∷ [])

accept_all-keeps :
    (P : List Row → Type 0)
    → Keeps P
    → (w : Surroundings) (is : List Incoming) (l l' : Loop) → accept_all w is l ≡ ok l'
    → P l.rows
    → P l'.rows
unfolding accept_all
accept_all-keeps P keeps w [] l l' h p = let same : l ≡ l' = cc in rw same at p
accept_all-keeps P keeps w (i ∷ is) l l' h p =
    let (m, e, e₁) = >>=-eq-ok (accept_one w i l) _ h in
    accept_all-keeps P keeps w is m l' e₁ (elim (accept_one-ok w i l m e) [
      | inl skipped ↦ rw skipped.rows p
      | inr a ↦ rw a.rows (keeps l.rows _ p a.foreign a.checked)
    ])

-- The rows are numbered on from `n`.
abbrev pub IsNumbered : ℕ → List Row → Type 0
IsNumbered n [] = Unit
IsNumbered n (row ∷ rows) = (row.envelope.sequence ≡ n + 1) × IsNumbered (n + 1) rows

-- What the rounds of the loop have added up.
record IsSum (is : List Incoming) (l l' : Loop) : Type 0 where
  pub new : List Row
  pub rows : l'.rows ≡ l.rows ++ new
  pub numbered : IsNumbered l.sequence new
  pub count : l'.accepted ≡ l.accepted + length new
  pub sequence : l'.sequence ≡ l.sequence + length new
  pub total : l'.accepted + l'.duplicates ≡ l.accepted + l.duplicates + length is

accept_all-IsSum :
    (w : Surroundings) (is : List Incoming) (l l' : Loop)
    → accept_all w is l ≡ ok l'
    → IsSum is l l'
unfolding accept_all
accept_all-IsSum w [] l l' h =
    let same : l' ≡ l = cc in
    rw same (record {
      new = [];
      rows = sym (append-nil l.rows);
      numbered = tt;
      count = omega arith;
      sequence = omega arith;
      total = omega arith;
    })
accept_all-IsSum w (i ∷ is) l l' h =
    let (m, e, e₁) = >>=-eq-ok (accept_one w i l) _ h in
    let rest = accept_all-IsSum w is m l' e₁ in
    elim (accept_one-ok w i l m e) [
      | inl k ↦ record {
        new = rest.new;
        rows = rw (← k.rows) rest.rows;
        numbered = rw (← k.sequence) rest.numbered;
        count = omega (arith, rest.count, k.accepted);
        sequence = omega (arith, rest.sequence, k.sequence);
        total = omega (arith, rest.total, k.accepted, k.duplicates);
      }
      | inr a ↦ record {
        new = row_of (l.sequence + 1) i ∷ rest.new;
        rows = rest.rows ∙ ap (λ rows. rows ++ rest.new) a.rows ∙ append_assoc l.rows _ rest.new;
        numbered = (refl, rw (← a.sequence) rest.numbered);
        count = omega (arith, rest.count, a.accepted);
        sequence = omega (arith, rest.sequence, a.sequence);
        total = omega (arith, rest.total, a.accepted, a.duplicates);
      }
    ]

-- The transaction succeeded through its loop.
record IsRun (w : Surroundings) (root : String) (events : List Incoming) (s : Store)
    (reply : AcceptReply) (s' : Store) : Type 0 where
  pub execution : Execution
  pub last : Loop
  pub found : find_root root s.executions ≡ ok execution
  pub run : accept_all w events (first_round execution s) ≡ ok last
  pub store : s' ≡ accepted_store last
  pub replied : reply ≡ accepted_reply last

accept_events-IsRun :
    (w : Surroundings) (root : String) (events : List Incoming) (s : Store) (reply : AcceptReply)
    (s' : Store)
    → accept_events w root events s ≡ ok (reply, s')
    → IsRun w root events s reply s'
unfolding accept_events
accept_events-IsRun w root events s reply s' h =
    let (_, e) = throw_if-eq-ok (length events == 0 || ltb 200 (length events)) _ _ h in
    let (x, found, e₁) = >>=-eq-ok (find_root root s.executions) _ e in
    let (last, run, e₂) = >>=-eq-ok (accept_all w events (first_round x s)) _ e₁ in
    record { execution = x; last = last; found = found; run = run; store = cc; replied = cc }

module _ (w : Surroundings) (root : String) (events : List Incoming) (s : Store)
    (reply : AcceptReply) (s' : Store) where
  -- A batch of events from a worker that is accepted leads from a log that the service can write
  -- to one that it can write, so that the limits of the budget hold in it too: no event of the
  -- batch is a decision on the budget.
  pub accept_events-Reach : accept_events w root events s ≡ ok (reply, s') → Reach s → Reach s'
  unfolding accepted_store
  accept_events-Reach h reach =
      let r = accept_events-IsRun w root events s reply s' h in
      let reached =
        accept_all-keeps (λ rows. Reach (record s { rows = rows }))
          (λ rows row p f _. recorded p row f) w events (first_round r.execution s) r.last r.run
          reach in
      rw r.store (updated reached _)

  -- A batch that is accepted keeps the order of every attempt of an operation: if each start and
  -- finish of the log was checked, each one of the new log was.
  pub accept_events-Accepted :
      accept_events w root events s ≡ ok (reply, s') → Accepted s.rows → Accepted s'.rows
  unfolding accepted_store
  accept_events-Accepted h checked =
      let r = accept_events-IsRun w root events s reply s' h in
      rw r.store (
        accept_all-keeps Accepted (λ rows row p _ c. more p row c) w events
          (first_round r.execution s) r.last r.run checked)

  -- Every event of an accepted batch is counted as accepted or as a duplicate; the accepted ones
  -- are appended to the log, numbered without a gap after the last number of the root; and the
  -- reply's last sequence is the number of the last of them.
  pub accept_events-IsNumbered :
      accept_events w root events s ≡ ok (reply, s')
      → (x : Execution) × (find_root root s.executions ≡ ok x)
        × ((new : List Row) × (s'.rows ≡ s.rows ++ new)
            × (length new ≡ reply.accepted)
            × IsNumbered x.last_sequence new)
        × (reply.accepted + reply.duplicates ≡ length events)
        × (reply.last_sequence ≡ x.last_sequence + reply.accepted)
  unfolding accepted_store
  accept_events-IsNumbered h =
      let r = accept_events-IsRun w root events s reply s' h in
      let sum = accept_all-IsSum w events (first_round r.execution s) r.last r.run in
      (
        r.execution,
        r.found,
        (sum.new, rw r.store sum.rows, rw r.replied (omega (arith, sum.count)), sum.numbered),
        rw r.replied (omega (arith, sum.total)),
        rw r.replied (omega (arith, sum.sequence, sum.count)),
      )
