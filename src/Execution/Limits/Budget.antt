-- ===== src/Execution/Limits/Budget.antt =====
-- The invariant of a budget, and its preservation by each budget event.
use native.Mathlib.Nat.{add-zero}
use documents_backend.Common.{
  ℕ, ◌+◌, ◌-◌, ◌≤◌, ◌<◌, String, Bool, true, false, ◌&&◌, ◌≡◌, refl, none, some, ◌==◌, eq_string,
  eq_iff, str_eq, if◌then◌else◌, arith, Bool-cases, Option-cases, inl, inr, get_or, ◌∙◌,
}
use documents_backend.Common.Dict.{
  Dict, lookup, insert, adjust, insert_new, lookup-adjust_inv, lookup-adjust-some,
  lookup-insert_new,
}
use documents_backend.Execution.Types.{
  Bucket, normal, repair, closing, tool, eq_bucket, bucket_eq_iff, status_eq, reserved, BudgetUsage,
  Grant, Reservation, Usages, GrantPolicy, GrantState, Budget, SoftLimitSignal,
}
use documents_backend.Execution.Progress.BudgetEvents.{
  usage_of, adjust_usages, adjust_grant, grant_state, apply_grant, mark_soft_limit,
  apply_soft_limit, reserve_one, normalized, add_reservation, apply_reservation,
}
use documents_backend.Execution.Progress.Consume.{consume_one, consume_in_budget}
use documents_backend.Execution.Limits.Live.{
  is_for, one_if, live, mark_consumed, live-insert, live-consume, live-unknown, AllKnown, Grows,
  AllKnown-Grows, AllKnown-insert, AllKnown-consume,
}

-- What the policy of a grant gives to a bucket.
abbrev pub policy_limit : Bucket → GrantPolicy → ℕ
policy_limit normal p = p.normal
policy_limit repair p = p.repair
policy_limit closing p = p.closing
policy_limit tool p = p.tool_calls

-- `n` reservations are open: they are what is reserved, reserved and consumed units fit into the
-- granted ones, and the rest is available.
pub record IsUsage (n limit : ℕ) (u : BudgetUsage) : Type 0 where
  pub sized : u.granted ≡ limit
  pub counted : u.reserved ≡ n
  pub within : u.reserved + u.consumed ≤ u.granted
  pub rest : u.available ≡ u.granted - u.reserved - u.consumed

pub record IsWithin (b : Budget) : Type 0 where
  pub usages :
      (g : String) (k : Bucket) (st : GrantState)
      → lookup g b.grants ≡ some st
      → IsUsage
          (live g k b.reservations)
          (policy_limit k st.grant.effective_policy)
          (usage_of k st.usage)
  pub known : AllKnown b.grants b.reservations

mark_soft_limit-IsUsage :
    {n m : ℕ} (s : SoftLimitSignal) (t : Bool) (u : BudgetUsage)
    → IsUsage n m u
    → IsUsage n m (if t then mark_soft_limit s u else u)
unfolding mark_soft_limit
mark_soft_limit-IsUsage s t u h = ground arith

reserve_one-IsUsage :
    {n m : ℕ} (t : Bool) (u : BudgetUsage)
    → IsUsage n m u
    → (t ≡ true → 0 < u.available)
    → IsUsage (n + one_if t) m (if t then reserve_one u else u)
unfolding reserve_one
reserve_one-IsUsage true u h room = let left = room refl in ground arith
reserve_one-IsUsage false u h room = ground arith

consume_one-IsUsage :
    {n n' m : ℕ} (t w : Bool) (u : BudgetUsage)
    → IsUsage n m u
    → n' + one_if t ≡ n
    → IsUsage n' m (if t then consume_one w u else u)
unfolding consume_one
consume_one-IsUsage true w u h e = ground arith
consume_one-IsUsage false w u h e = ground arith

-- A change of one bucket's usage seen from each bucket.
usage-adjust :
    (k j : Bucket) (f : BudgetUsage → BudgetUsage) (u : Usages)
    → usage_of j (adjust_usages k f u) ≡ (if k == j then f (usage_of j u) else usage_of j u)
usage-adjust k j f u = ground arith

-- The same, seen from each grant.
module _ (id : String) (k : Bucket) (f : BudgetUsage → BudgetUsage) (grants : Dict GrantState) where
  pub lookup-adjusted :
      (g : String) (st : GrantState)
      → lookup g (adjust id (adjust_grant k f) grants) ≡ some st
      → (old : GrantState) × (lookup g grants ≡ some old)
        × (st.grant ≡ old.grant)
        × ((j : Bucket)
            → usage_of j st.usage
              ≡ (if str_eq id g && k == j then f (usage_of j old.usage) else usage_of j old.usage))
  lookup-adjusted g st e =
      let (old, found, same) = lookup-adjust_inv id g (adjust_grant k f) grants st e in
      (
        old,
        found,
        ground arith,
        λ j. elim (Bool-cases (str_eq id g)) [
          | inl t ↦ rw (same, t) (usage-adjust k j f old.usage)
          | inr t ↦ rw (same, t) refl
        ],
      )

  pub Grows-adjusted : Grows grants (adjust id (adjust_grant k f) grants)
  Grows-adjusted g st e = (
    if str_eq id g then adjust_grant k f st else st,
    lookup-adjust-some id g (adjust_grant k f) grants st e,
  )

grant_state-IsUsage :
    (g : Grant) (k : Bucket)
    → IsUsage 0 (policy_limit k g.effective_policy) (usage_of k (grant_state g).usage)
unfolding grant_state
grant_state-IsUsage g k = ground arith

Grows-insert_new :
    (id : String) (x : GrantState) (grants : Dict GrantState)
    → Grows grants (insert_new id x grants)
Grows-insert_new id x grants g st e = elim (Bool-cases (str_eq id g)) [
  | inl t ↦ (get_or (lookup id grants) x, lookup-insert_new id g x grants ∙ rw t)
  | inr t ↦ (st, lookup-insert_new id g x grants ∙ rw t e)
]

-- What a reservation needs of the budget that it is made in.
abbrev pub CanReserve : Budget → Reservation → Type 0
CanReserve b r =
    status_eq r.status reserved ≡ true
    → (st : GrantState) × (lookup r.grant_id b.grants ≡ some st)
      × (0 < (usage_of r.bucket st.usage).available)

module _ (b : Budget) (h : IsWithin b) where
  granted_usage :
      (g : Grant) (j : String) (k : Bucket) (st : GrantState)
      → (if str_eq g.grant_id j
          then some (get_or (lookup g.grant_id b.grants) (grant_state g))
          else lookup j b.grants)
        ≡ some st
      → IsUsage
          (live j k b.reservations)
          (policy_limit k st.grant.effective_policy)
          (usage_of k st.usage)
  unfolding grant_state
  granted_usage g j k st e = elim (Bool-cases (str_eq g.grant_id j)) [
    | inr t ↦ h.usages j k st (rw t at e)
    | inl t ↦
        let same = (eq_iff g.grant_id j).0 t in
        elim (Option-cases (lookup g.grant_id b.grants)) [
          | inr (old, found) ↦ h.usages j k st (ground arith)
          | inl missing ↦
              let fresh : grant_state g ≡ st = ground arith in
              let absent : lookup j b.grants ≡ none = cc in
              rw (← fresh, live-unknown b.grants j k absent b.reservations h.known)
                (grant_state-IsUsage g k)
        ]
  ]

  -- A soft-limit signal changes no count.
  pub apply_soft_limit-IsWithin : (s : SoftLimitSignal) → IsWithin (apply_soft_limit s b)
  unfolding apply_soft_limit
  apply_soft_limit-IsWithin s = record {
    usages = λ g k st e.
        let (old, found, kept, same) =
          lookup-adjusted s.grant_id s.bucket (mark_soft_limit s) b.grants g st e in
        rw (kept, same k)
          (mark_soft_limit-IsUsage s (str_eq s.grant_id g && s.bucket == k) (usage_of k old.usage)
            (h.usages g k old found));
    known =
        AllKnown-Grows b.grants _ (Grows-adjusted s.grant_id s.bucket (mark_soft_limit s) b.grants)
          b.reservations h.known;
  }

  -- A new grant starts with nothing used; one that exists stays as it is.
  pub apply_grant-IsWithin : (g : Grant) → IsWithin (apply_grant g b)
  unfolding apply_grant
  apply_grant-IsWithin g = record {
    usages = λ j k st e. granted_usage g j k st (rw lookup-insert_new at e);
    known =
        AllKnown-Grows b.grants _ (Grows-insert_new g.grant_id (grant_state g) b.grants)
          b.reservations h.known;
  }

  -- A reservation is within the limit if it found its grant with a unit available.
  module _ (r : Reservation) (can : CanReserve b r)
      (new : lookup r.operation_id b.reservations ≡ none) where
    room :
        (g : String) (k : Bucket) (old : GrantState)
        → lookup g b.grants ≡ some old
        → status_eq r.status reserved ≡ true
        → is_for g k r ≡ true
        → 0 < (usage_of k old.usage).available
    room g k old found held t =
        let (st, there, left) = can held in
        let same_grant = (eq_iff r.grant_id g).0 (ground arith) in
        let same_bucket = (bucket_eq_iff r.bucket k).0 (ground arith) in
        let same : st ≡ old = cc in rw (← same_bucket, ← same) left

    added_usage :
        (t : Bool) (g : String) (k : Bucket) (st : GrantState)
        → status_eq r.status reserved ≡ t
        → lookup g
            (if t then adjust r.grant_id (adjust_grant r.bucket reserve_one) b.grants else b.grants)
          ≡ some st
        → IsUsage
            (live g k b.reservations + one_if (t && is_for g k r))
            (policy_limit k st.grant.effective_policy)
            (usage_of k st.usage)
    added_usage true g k st held e =
        let (old, found, kept, same) =
          lookup-adjusted r.grant_id r.bucket reserve_one b.grants g st e in
        rw (kept, same k)
          (reserve_one-IsUsage (is_for g k r) (usage_of k old.usage) (h.usages g k old found)
            (room g k old found held))
    added_usage false g k st denied e = rw add-zero (h.usages g k st e)

    inserted_known : AllKnown b.grants (insert r.operation_id (normalized r) b.reservations)
    inserted_known =
        AllKnown-insert b.grants r.operation_id (normalized r) b.reservations
          (λ held. let (st, there, left) = can held in (st, there)) h.known

    added_known :
        (t : Bool)
        → status_eq r.status reserved ≡ t
        → AllKnown
            (if t then adjust r.grant_id (adjust_grant r.bucket reserve_one) b.grants else b.grants)
            (insert r.operation_id (normalized r) b.reservations)
    added_known true s =
        AllKnown-Grows b.grants _ (Grows-adjusted r.grant_id r.bucket reserve_one b.grants)
          (insert r.operation_id (normalized r) b.reservations) inserted_known
    added_known false s = inserted_known

    pub add_reservation-IsWithin : IsWithin (add_reservation none r b)
    add_reservation-IsWithin = record {
      usages = λ g k st e.
          rw (live-insert g k r.operation_id (normalized r) b.reservations new)
            (added_usage (status_eq r.status reserved) g k st refl e);
      known = added_known (status_eq r.status reserved) refl;
    }

  pub apply_reservation-IsWithin :
      (r : Reservation) → CanReserve b r → IsWithin (apply_reservation r b)
  unfolding apply_reservation
  apply_reservation-IsWithin r can = elim (Option-cases (lookup r.operation_id b.reservations)) [
    | inr (old, found) ↦ rw found h
    | inl new ↦ rw new (add_reservation-IsWithin r can new)
  ]

  -- A consumed reservation moves one unit from the reserved to the consumed ones.
  pub consume_in_budget-IsWithin :
      (id : String) (r : Reservation) (w : Bool)
      → lookup id b.reservations ≡ some r
      → status_eq r.status reserved ≡ true
      → IsWithin (consume_in_budget id r w b)
  unfolding consume_in_budget
  consume_in_budget-IsWithin id r w found held = record {
    usages = λ g k st e.
        let one = consume_one (r.bucket == normal && w) in
        let (old, there, kept, same) = lookup-adjusted r.grant_id r.bucket one b.grants g st e in
        rw (kept, same k)
          (consume_one-IsUsage (is_for g k r) (r.bucket == normal && w) (usage_of k old.usage)
            (h.usages g k old there)
            (rw held at (live-consume g k id b.reservations {r = r} found)));
    known =
        AllKnown-Grows b.grants _
          (Grows-adjusted r.grant_id r.bucket (consume_one (r.bucket == normal && w)) b.grants)
          (adjust id mark_consumed b.reservations)
          (AllKnown-consume b.grants id b.reservations h.known);
  }
