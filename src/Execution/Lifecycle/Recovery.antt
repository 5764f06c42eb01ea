-- ===== src/Execution/Lifecycle/Recovery.antt =====
-- The recovery of executions whose worker was lost (`requeueStaleExecutions` of
-- src/execution/execution.service.ts) happens once, and boundedly often.
use documents_backend.Common.{
  ℕ, ◌+◌, ◌<◌, ◌≤◌, String, true, false, ◌≡◌, refl, ap, sym, ◌∙◌, none, some, List, [], ◌∷◌, arith,
  find-holds, ◌==◌, eq_string, eq_iff, str_eq, eq_option, ◌⊎◌, inl, inr, Bool-cases, ok, eq_refl,
}
use documents_backend.Execution.Entity.{Status, queued, running, failed, eq_status, Execution}
use documents_backend.Execution.Service.Store.{Store, Fresh, save}
use documents_backend.Execution.Lifecycle.{
  UpdateOptions, is_released, with_status, stored, save_both, advance, apply_status, returned,
  update_found, update_status, find_execution,
}
use documents_backend.Execution.Lifecycle.Requeue.{is_exhausted, target, requeue_options, requeue}
use documents_backend.Execution.Lifecycle.Settled.{apply_status-ok}

-- The saved execution is the one found afterwards.
pub find_execution-save :
    (y : Execution) (xs : List Execution) (x : Execution)
    → find_execution y.execution_id xs ≡ some x
    → find_execution y.execution_id (save y xs) ≡ some y
unfolding find_execution save
find_execution-save y [] x h = cc
find_execution-save y (z ∷ xs) x h = elim (Bool-cases (str_eq z.execution_id y.execution_id)) [
  | inl t ↦ rw t (ground (arith, eq_refl y.execution_id))
  | inr t ↦ let rest = find_execution-save y xs x (ground arith) in ground (arith, rest)
]

-- Saving another execution leaves it.
pub find_execution-other :
    (id : String) (y : Execution) (xs : List Execution)
    → str_eq y.execution_id id ≡ false
    → find_execution id (save y xs) ≡ find_execution id xs
unfolding find_execution save
find_execution-other id y [] h = refl
find_execution-other id y (z ∷ xs) h = elim (Bool-cases (str_eq z.execution_id y.execution_id)) [
  | inl t ↦
      let same = (eq_iff z.execution_id y.execution_id).0 t in
      let other : str_eq z.execution_id id ≡ false = rw same h in ground arith
  | inr t ↦ let rest = find_execution-other id y xs h in ground (arith, rest)
]

-- After the two are saved, the execution found is the one with the new status.
save_both-found :
    (fresh : Fresh) (n : ℕ) (y root : Execution) (xs : List Execution) (x : Execution)
    → find_execution y.execution_id xs ≡ some x
    → (z : Execution) × (find_execution y.execution_id (save_both fresh n y root xs) ≡ some z)
      × (z.attempt_id ≡ y.attempt_id)
unfolding save_both
save_both-found fresh n y root xs x h = elim (Bool-cases (root.execution_id == y.execution_id)) [
  | inl t ↦ rw t (advance fresh n y, find_execution-save (advance fresh n y) xs x h, refl)
  | inr t ↦ rw t (
    y,
    find_execution-other y.execution_id (advance fresh n root) (save y xs) t
        ∙ find_execution-save y xs x h,
    refl,
  )
]

pub named :
    (id : String) (xs : List Execution) (x : Execution)
    → find_execution id xs ≡ some x
    → x.execution_id ≡ id
unfolding find_execution
named id xs x h = (eq_iff x.execution_id id).0 (find-holds (λ y. y.execution_id == id) xs h)

target-released : (x : Execution) → is_released (target x) ≡ true
target-released x = ground arith

pub target-moves : (x z : Execution) → z.status ≡ running → (z.status == target x) ≡ false
target-moves x z runs = rw runs (ground arith)

found-applied :
    (fresh : Fresh) (status : Status) (message : String) (options : UpdateOptions) (s s' : Store)
    (y z : Execution)
    → (z.status == status) ≡ false
    → update_found fresh status message options s (some z) ≡ ok (some y, s')
    → apply_status fresh status message options s z ≡ ok (some y, s')
unfolding update_found
found-applied fresh status message options s s' y z moves h = ground arith

-- An execution without an attempt is not the one that was read under an attempt.
found-refused :
    (fresh : Fresh) (status : Status) (message : String) (options : UpdateOptions) (s : Store)
    (z : Execution) (attempt : String)
    → options.expected_attempt_id ≡ some (some attempt)
    → z.attempt_id ≡ none
    → update_found fresh status message options s (some z) ≡ ok (none, s)
unfolding update_found
found-refused fresh status message options s z attempt expected lost = rw (expected, lost) refl

-- A stored execution that is running under the attempt that the query read is changed.
pub requeue-applied :
    (fresh : Fresh) (message : String) (x : Execution) (s s' : Store) (y z : Execution)
    → find_execution x.execution_id s.executions ≡ some z
    → z.status ≡ running
    → requeue fresh message x s ≡ ok (some y, s')
    → apply_status fresh (target x) message (requeue_options x) s z ≡ ok (some y, s')
unfolding requeue update_status
requeue-applied fresh message x s s' y z found runs h =
    found-applied fresh (target x) message (requeue_options x) s s' y z (target-moves x z runs)
      (rw found at h)

-- The recovery of one lost attempt takes effect once: a second recovery from the same reading
-- finds no attempt on the execution any more, returns nothing and changes nothing.
pub requeue-once :
    (fresh fresh' : Fresh) (message : String) (x : Execution) (s s' : Store) (y z : Execution)
    (attempt : String)
    → find_execution x.execution_id s.executions ≡ some z
    → z.status ≡ running
    → x.attempt_id ≡ some attempt
    → requeue fresh message x s ≡ ok (some y, s')
    → requeue fresh' message x s' ≡ ok (none, s')
unfolding requeue update_status stored with_status
requeue-once fresh fresh' message x s s' y z attempt found runs read h =
    let (root, _, _, store) =
      apply_status-ok fresh (target x) message (requeue_options x) s s' y z
        (requeue-applied fresh message x s s' y z found runs h) in
    let after = with_status (target x) message (requeue_options x) fresh.now z in
    let same = named x.execution_id s.executions z found in
    let (z', found', kept) =
      save_both-found fresh (root.last_sequence + 1) after root s.executions z
        (ap (λ id. find_execution id s.executions) same ∙ found) in
    let lost : z'.attempt_id ≡ none = kept ∙ rw (target-released x) refl in
    let there : find_execution x.execution_id s'.executions ≡ some z' =
      ap (λ st. find_execution x.execution_id st.executions) store
      ∙ ap
          (λ id.
            find_execution id (save_both fresh (root.last_sequence + 1) after root s.executions))
          (sym same)
      ∙ found' in
    rw there (
      found-refused fresh' (target x) message (requeue_options x) s' z' attempt (ap some read) lost)

-- The recovery of an execution that was read as it is stored, running: its retries grow by one,
-- and either it is queued again with retries to spare, or its attempts are exhausted and it has
-- failed for that reason.
pub requeue-bound :
    (fresh : Fresh) (message : String) (x : Execution) (s s' : Store) (y : Execution)
    → find_execution x.execution_id s.executions ≡ some x
    → x.status ≡ running
    → requeue fresh message x s ≡ ok (some y, s')
    → (y.retry_count ≡ x.retry_count + 1)
      × (((y.status ≡ queued) × (y.retry_count < x.max_attempts))
          ⊎ ((y.status ≡ failed)
              × (x.max_attempts ≤ y.retry_count)
              × (y.completion_reason ≡ some "attempts_exhausted")))
unfolding with_status returned
requeue-bound fresh message x s s' y found runs h =
    let (root, _, made, _) =
      apply_status-ok fresh (target x) message (requeue_options x) s s' y x
        (requeue-applied fresh message x s s' y x found runs h) in
    (
      ground arith,
      elim (Bool-cases (is_exhausted x)) [
        | inl t ↦ inr (ground arith, ground arith, ground arith)
        | inr t ↦ inl (ground arith, ground arith)
      ],
    )
