-- ===== src/Execution/Limits/Service.antt =====
-- The budget of every log that the service can write.
use mathlib.Core.List.{append_assoc, append-nil}
use mathlib.Core.Path.{subst}
use documents_backend.Common.{
  ℕ, ◌+◌, ◌≤◌, ◌<◌, String, true, false, ◌≡◌, ◌≢◌, refl, Option, none, some, List, [], ◌∷◌, ◌++◌,
  arith, All, All-append, ok, inl, inr,
}
use documents_backend.Common.Dict.{lookup}
use documents_backend.Execution.Types.{
  Bucket, Grant, Reservation, GrantState, SoftLimitSignal, GuardSignal, GuardState,
}
use documents_backend.Execution.Events.{budget_reservation, progress_reported, Row}
use documents_backend.Execution.Entity.{Execution}
use documents_backend.Execution.Progress.BudgetEvents.{usage_of}
use documents_backend.Execution.Progress.Consume.{guard_snapshot}
use documents_backend.Execution.Progress.Projection.{project}
use documents_backend.Execution.Budget.Requests.{RawGrantRequest}
use documents_backend.Execution.Budget.ReservationRequests.{
  RawReservationRequest, ReservationRequest,
}
use documents_backend.Execution.Budget.Checks.{create_reservation}
use documents_backend.Execution.Service.Store.{Store, Fresh, envelopes}
use documents_backend.Execution.Service.Grants.{
  Config, GrantReply, grant_row, grant_store, request_progress_grant,
}
use documents_backend.Execution.Service.Reserve.{
  ReserveReply, decide, guard_signal, decided_reservation, reservation_row, soft_limit_rows,
  guard_rows, decision_rows, soft_signal_of, rows_after, decision_store, reserve_operation_budget,
}
use documents_backend.Execution.Service.Outcomes.{
  decision, reserve-ok, reserve_operation_budget-ok, request_progress_grant-ok,
}
use documents_backend.Execution.Ingest.{is_budget_kind}
use documents_backend.Execution.Limits.Budget.{policy_limit, CanReserve}
use documents_backend.Execution.Limits.Live.{live}
use documents_backend.Execution.Limits.Log.{log_budget, LogWithin, LogWithin-append}

-- A row that reserves nothing.
abbrev IsPlain : Row → Type 0
IsPlain row = row.envelope.payload.kind ≢ budget_reservation

LogWithin-plain :
    (rows more : List Row) → All IsPlain more → LogWithin rows → LogWithin (rows ++ more)
LogWithin-plain rows [] p h = rw append-nil h
LogWithin-plain rows (row ∷ more) (p, ps) h =
    rw (← append_assoc rows (row ∷ []) more) (
      LogWithin-plain (rows ++ row ∷ []) more ps
        (LogWithin-append rows row h (λ _ k. absurd (p k))))

-- A reservation that has room, and plain rows after it.
LogWithin-reserve :
    (rows : List Row) (row : Row) (more : List Row) (v : Reservation)
    → row.envelope.payload.reservation ≡ some v
    → CanReserve (log_budget rows) v
    → All IsPlain more
    → LogWithin rows
    → LogWithin (rows ++ row ∷ more)
LogWithin-reserve rows row more v made can ps h = rw (← append_assoc rows (row ∷ []) more) (
    LogWithin-plain (rows ++ row ∷ []) more ps (
      LogWithin-append rows row h
        (λ _ _ w e. let same : v ≡ w = cc in subst (CanReserve (log_budget rows)) same can)))

-- A decision is granted only where a unit is available.
decide-room :
    (rows : List Row) (r : ReservationRequest) (g : GrantState) (guard : GuardState) (now : String)
    → (decide rows r g guard now).granted ≡ true
    → 0 < (usage_of r.bucket g.usage).available
unfolding decide
decide-room rows r g guard now h = ground arith

module _ (fresh : Fresh) (s : Store) where
  decided-CanReserve :
      (r : ReservationRequest) (g : GrantState)
      → lookup r.grant_id (log_budget s.rows).grants ≡ some g
      → CanReserve (log_budget s.rows) (decided_reservation fresh r (decision fresh s r g))
  unfolding decided_reservation create_reservation
  decided-CanReserve r g found held = (
    g,
    found,
    decide-room s.rows r g (guard_snapshot (project (envelopes s.rows)).ledger g.grant.grant_id)
        fresh.now (ground arith),
  )

  soft_limit_rows-IsPlain :
      (p n : ℕ) (o : Option SoftLimitSignal) → All IsPlain (soft_limit_rows fresh p n o)
  unfolding soft_limit_rows
  soft_limit_rows-IsPlain p n none = tt
  soft_limit_rows-IsPlain p n (some x) = ((λ e. cc), tt)

  guard_rows-IsPlain : (p n : ℕ) (o : Option GuardSignal) → All IsPlain (guard_rows fresh p n o)
  unfolding guard_rows
  guard_rows-IsPlain p n none = tt
  guard_rows-IsPlain p n (some x) = ((λ e. cc), tt)

  rows_after-LogWithin :
      (x : Execution) (r : ReservationRequest) (g : GrantState)
      → lookup r.grant_id (log_budget s.rows).grants ≡ some g
      → LogWithin s.rows
      → LogWithin (rows_after fresh s x r g (decision fresh s r g))
  unfolding rows_after decision_rows reservation_row
  rows_after-LogWithin x r g found h =
      LogWithin-reserve s.rows _ _ (decided_reservation fresh r (decision fresh s r g)) refl
        (decided-CanReserve r g found)
        (All-append IsPlain _ _
          (soft_limit_rows-IsPlain _ _ (soft_signal_of fresh r g (decision fresh s r g)))
          (guard_rows-IsPlain _ _ (guard_signal (decision fresh s r g))))
        h

  decision_store-LogWithin :
      (x : Execution) (r : ReservationRequest) (g : GrantState)
      → lookup r.grant_id (log_budget s.rows).grants ≡ some g
      → LogWithin s.rows
      → LogWithin (decision_store fresh s x r g (decision fresh s r g)).rows
  unfolding decision_store
  decision_store-LogWithin x r g found h = rows_after-LogWithin x r g found h

  grant_store-LogWithin :
      (x : Execution) (g : Grant) → LogWithin s.rows → LogWithin (grant_store fresh s x g).rows
  unfolding grant_store grant_row
  grant_store-LogWithin x g h = LogWithin-append s.rows _ h (λ _ k. cc)

-- A row that comes from a worker, or from another operation of the backend.
abbrev pub IsForeign : Row → Type 0
IsForeign row =
    row.envelope.event_type ≡ progress_reported → is_budget_kind row.envelope.payload.kind ≡ false

refused :
    (row : Row)
    → is_budget_kind row.envelope.payload.kind ≡ false
    → row.envelope.payload.kind ≡ budget_reservation
    → ⊥
refused row f k = ground arith

-- The stores that the service can reach: it starts with an empty log, decides on requests in any
-- order, and stores the events of others between them. The executions may change in any way.
pub data Reach : Store → Type 0 where
  empty : (xs : List Execution) → Reach (record { executions = xs; rows = [] })
  granted :
      {s s' : Store} {reply : GrantReply}
      → Reach s
      → (fresh : Fresh) (config : Config) (root : String) (raw : RawGrantRequest)
      → request_progress_grant fresh config root raw s ≡ ok (reply, s')
      → Reach s'
  reserved :
      {s s' : Store} {reply : ReserveReply}
      → Reach s
      → (fresh : Fresh) (root : String) (raw : RawReservationRequest)
      → reserve_operation_budget fresh root raw s ≡ ok (reply, s')
      → Reach s'
  recorded :
      {s : Store}
      → Reach s
      → (row : Row) → IsForeign row
      → Reach (record s { rows = s.rows ++ row ∷ [] })
  updated : {s : Store} → Reach s → (xs : List Execution) → Reach (record s { executions = xs })

-- Every log of the service satisfies the invariant of its budget.
pub Reach-LogWithin : {s : Store} → Reach s → LogWithin s.rows
unfolding project lookup
Reach-LogWithin (empty xs) = record { usages = λ g k st e. cc; known = tt }
Reach-LogWithin (granted {s} {s'} {reply} h fresh config root raw e) =
    elim (request_progress_grant-ok fresh s reply s' config root raw e) [
      | inl same ↦ rw same (Reach-LogWithin h)
      | inr (x, g, store) ↦ rw store (grant_store-LogWithin fresh s x g (Reach-LogWithin h))
    ]
Reach-LogWithin (reserved {s} {s'} {reply} h fresh root raw e) =
    let (r, _, e') = reserve_operation_budget-ok fresh s reply s' root raw e in
    let (x, _, outcome) = reserve-ok fresh s reply s' root r e' in
    elim outcome [
      | inl (v, _, _, same) ↦ rw same (Reach-LogWithin h)
      | inr d ↦
          rw d.store (decision_store-LogWithin fresh s x r d.grant d.found (Reach-LogWithin h))
    ]
Reach-LogWithin (updated h xs) = Reach-LogWithin h
Reach-LogWithin (recorded {s} h row foreign) =
    LogWithin-append s.rows row (Reach-LogWithin h) (λ t k. absurd (refused row (foreign t) k))

-- In every log that the service writes, and for every grant and bucket in it: the units reserved
-- and consumed are at most what the grant's effective policy gives, the available ones are exactly
-- the rest, and the reserved ones are as many as the reservations that are still open.
pub committed-le-policy :
    {s : Store}
    → Reach s
    → (g : String) (k : Bucket) (st : GrantState) → lookup g (log_budget s.rows).grants ≡ some st
    → let u = usage_of k st.usage in
      (u.reserved + u.consumed ≤ policy_limit k st.grant.effective_policy)
      × (u.available + u.reserved + u.consumed ≡ policy_limit k st.grant.effective_policy)
      × (u.reserved ≡ live g k (log_budget s.rows).reservations)
committed-le-policy h g k st e =
    let u = (Reach-LogWithin h).usages g k st e in (omega (arith, u), omega (arith, u), u.counted)
