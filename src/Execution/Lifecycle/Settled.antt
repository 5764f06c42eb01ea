-- ===== src/Execution/Lifecycle/Settled.antt =====
-- What `updateStatus` of src/execution/execution.service.ts leaves behind.
use documents_backend.Common.{
  ◌+◌, String, true, false, ◌≡◌, ◌≢◌, refl, ap, sym, ◌∙◌, Option, none, some, List, [], ◌∷◌, ◌++◌,
  arith, ◌==◌, eq_string, ◌⊎◌, inl, inr, Bool-cases, ok, >>=-eq-ok,
}
use documents_backend.Execution.Events.{Row, StateChange}
use documents_backend.Execution.Entity.{
  Status, queued, running, waiting, completed, failed, cancelled, eq_status, status_eq_iff,
  is_terminal, Execution,
}
use documents_backend.Execution.Service.Store.{Store, Fresh}
use documents_backend.Execution.Lifecycle.{
  UpdateOptions, status_name, is_released, retried, with_status, state_row, returned, stored,
  find_root_of, apply_status, is_other_attempt, update_found, update_status, find_execution,
  failure,
}

-- An execution that no worker holds has no trace of one; one that ended says when and why; and one
-- that failed has an error.
pub record IsSettled (x : Execution) : Type 0 where
  pub released :
      is_released x.status ≡ true
      → (x.claimed_by ≡ none) × (x.attempt_id ≡ none) × (x.started_at ≡ none) × (x.phase ≡ none)
  pub ended :
      is_terminal x.status ≡ true
      → ((t : String) × (x.completed_at ≡ some t))
        × ((reason : String) × (x.completion_reason ≡ some reason))
        × (x.completion_kind ≡ some "full")
  pub failure : x.status ≡ failed → (e : String × String) × (x.error ≡ some e)

failure-failed :
    (status : Status) (message : String) (e : Option (String × String))
    → status ≡ failed
    → (after : String × String) × (failure status message e ≡ some after)
failure-failed failed message none f = (("EXECUTION_FAILED", message), refl)
failure-failed failed message (some e) f = (e, refl)
failure-failed queued message e f = cc
failure-failed running message e f = cc
failure-failed waiting message e f = cc
failure-failed completed message e f = cc
failure-failed cancelled message e f = cc

with_status-IsSettled :
    (status : Status) (message : String) (options : UpdateOptions) (now : String) (x : Execution)
    → IsSettled (with_status status message options now x)
unfolding with_status
with_status-IsSettled status message options now x = record {
  released = λ t. rw t (refl, refl, refl, refl);
  ended = λ t. rw t ((now, refl), (_, refl), refl);
  failure = λ f. failure-failed status message x.error f;
}

-- The one event that a change of the status appends.
pub record IsRecorded (root before after : Execution) (rows rows' : List Row) : Type 0 where
  pub row : Row
  pub change : StateChange
  pub appended : rows' ≡ rows ++ row ∷ []
  pub payload : row.envelope.payload.state_change ≡ some change
  pub from : change.from ≡ status_name before.status
  pub to : change.to ≡ status_name after.status
  pub sequence : row.envelope.sequence ≡ root.last_sequence + 1
  pub caused_by : row.caused_by ≡ root.last_event_id

-- The execution was there in another state, and its change was recorded in its root's log.
pub record IsChanged (id : String) (options : UpdateOptions) (s : Store) (y : Execution)
    (s' : Store) : Type 0 where
  pub before : Execution
  pub root : Execution
  pub found : find_execution id s.executions ≡ some before
  pub root_found : find_root_of before s.executions ≡ ok root
  pub moved : before.status ≢ y.status
  pub attempt : is_other_attempt options before ≡ false
  pub settled : IsSettled y
  pub retries : y.retry_count ≡ retried options.increment_retry before.retry_count
  pub recorded : IsRecorded root before y s.rows s'.rows

module _ (fresh : Fresh) (status : Status) (message : String) (options : UpdateOptions)
    (s s' : Store) (y : Execution) where
  pub apply_status-ok :
      (x : Execution)
      → apply_status fresh status message options s x ≡ ok (some y, s')
      → (root : Execution) × (find_root_of x s.executions ≡ ok root)
        × (y ≡ returned fresh root (with_status status message options fresh.now x))
        × (s' ≡ stored fresh s root x (with_status status message options fresh.now x))
  unfolding apply_status
  apply_status-ok x h =
      let (root, found, e) = >>=-eq-ok (find_root_of x s.executions) _ h in (root, found, cc, cc)

  -- The object that is returned has the members of the one that is saved.
  returned-IsSettled : (root x : Execution) → IsSettled x → IsSettled (returned fresh root x)
  unfolding returned
  returned-IsSettled root x h = elim (Bool-cases (root.execution_id == x.execution_id)) [
    | inl t ↦ rw t (record { released = h.released; ended = h.ended; failure = h.failure })
    | inr t ↦ rw t h
  ]

  returned-same :
      (root x : Execution)
      → ((returned fresh root x).status ≡ x.status)
        × ((returned fresh root x).retry_count ≡ x.retry_count)
  unfolding returned
  returned-same root x = (ground arith, ground arith)

  stored-IsRecorded :
      (root before after : Execution)
      → after.status ≡ y.status
      → s' ≡ stored fresh s root before after
      → IsRecorded root before y s.rows s'.rows
  unfolding stored state_row
  stored-IsRecorded root before after same store = rw store (record {
    row = state_row fresh s.rows root before after;
    change = _;
    appended = refl;
    payload = refl;
    from = refl;
    to = ap status_name same;
    sequence = refl;
    caused_by = refl;
  })

  update_found-ok :
      (id : String) (o : Option Execution)
      → find_execution id s.executions ≡ o
      → update_found fresh status message options s o ≡ ok (some y, s')
      → (y.status ≡ status) × ((s' ≡ s) ⊎ IsChanged id options s y s')
  unfolding update_found with_status
  update_found-ok id none found h = cc
  update_found-ok id (some x) found h = elim (Bool-cases (is_other_attempt options x)) [
    | inl t ↦ absurd (ground arith)
    | inr t ↦ elim (Bool-cases (x.status == status)) [
      | inl u ↦
          let same : y ≡ x = ground arith in
          (ap (λ z. z.status) same ∙ (status_eq_iff x.status status).0 u, inl (ground arith))
      | inr u ↦
          let applied : apply_status fresh status message options s x ≡ ok (some y, s') =
            ground arith in
          let (root, root_found, made, store) = apply_status-ok x applied in
          let after = with_status status message options fresh.now x in
          let (same, retries) = returned-same root after in
          let now = ap (λ z. z.status) made ∙ same in
          (
            now,
            inr (record {
              before = x;
              root = root;
              found = found;
              root_found = root_found;
              moved = λ stays. let bad = (status_eq_iff x.status status).1 (stays ∙ now) in cc;
              attempt = t;
              settled = rw made (
                  returned-IsSettled root after
                    (with_status-IsSettled status message options fresh.now x));
              retries = ap (λ z. z.retry_count) made ∙ retries;
              recorded = stored-IsRecorded root x after (sym now) store;
            }),
          )
    ]
  ]

  -- An update that returns an execution returns it in the state that was asked for. Either it was
  -- in that state before, and nothing changes; or it was in another state, under the attempt that
  -- the caller expects, and then: if it is no longer running, no worker, attempt, start or phase
  -- is left on it; if it has ended, its end has a time and a reason; if it has failed, it has an
  -- error; its retries are counted as asked; and one event, next in the root's log and caused by
  -- the root's last event, records the two states.
  pub update_status-ok :
      (id : String)
      → update_status fresh id status message options s ≡ ok (some y, s')
      → (y.status ≡ status) × ((s' ≡ s) ⊎ IsChanged id options s y s')
  unfolding update_status
  update_status-ok id h = update_found-ok id _ refl h
