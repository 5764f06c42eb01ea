-- ===== src/Execution/Service/Repeat.antt =====
-- What a repeated reservation request meets (`reserveOperationBudget` of src/execution/execution.service.ts).
use documents_backend.Common.{
  String, Bool, true, ◌&&◌, ◌≡◌, refl, Option, some, none, List, [], ◌∷◌, ◌++◌, arith, ◌==◌, str_eq,
  eq_string, eq_iff, eq_refl, Option-cases, Bool-cases, inl, inr, or_else, ◌∙◌, find, find-holds,
  find-append, ok,
}
use documents_backend.Common.Dict.{lookup}
use documents_backend.Execution.Types.{Reservation, GrantState, Ledger, status_eq, reserved}
use documents_backend.Execution.Entity.{Execution}
use documents_backend.Execution.Events.{Row}
use documents_backend.Execution.Progress.BudgetEvents.{ensure_budget}
use documents_backend.Execution.Budget.ReservationRequests.{ReservationRequest}
use documents_backend.Execution.Budget.Checks.{assert_reservation_matches, reservation_matches}
use documents_backend.Execution.Service.Store.{Store, find_root, save}
use documents_backend.Execution.Service.Reserve.{
  ReserveReply, repeat_reply, repeat_decision, is_reservation_row, is_soft_limit_row, is_guard_row,
  row_id, reported,
}

-- The root execution carries the identifier that it was found by.
pub find_root-named :
    (root : String) (xs : List Execution) (x : Execution)
    → find_root root xs ≡ ok x
    → (x.execution_id ≡ root) × (x.root_execution_id ≡ root)
unfolding find_root
find_root-named root xs x found =
    let there : find (λ y. y.execution_id == root && y.root_execution_id == root) xs ≡ some x =
      ground arith in
    let holds = find-holds (λ y. y.execution_id == root && y.root_execution_id == root) xs there in
    (
      (eq_iff x.execution_id root).0 (ground arith),
      (eq_iff x.root_execution_id root).0 (ground arith),
    )

-- The saved root execution is the one found afterwards.
pub find_root-save :
    (root : String) (xs : List Execution) (x y : Execution)
    → find_root root xs ≡ ok x
    → y.execution_id ≡ root
    → y.root_execution_id ≡ root
    → find_root root (save y xs) ≡ ok y
unfolding find_root save
find_root-save root [] x y found same same_root = cc
find_root-save root (z ∷ xs) x y found same same_root =
    elim (Bool-cases (str_eq z.execution_id root)) [
      | inl t ↦ ground (arith, eq_refl root)
      | inr t ↦
          let rest = find_root-save root xs x y (ground arith) same same_root in
          ground (arith, rest)
    ]

-- A row that matches is found in a list that has it.
pub find-middle {ℓ} :
    {A : Type ℓ} (p : A → Bool) (xs ys : List A) (y : A)
    → p y ≡ true
    → (z : A) × (find p (xs ++ y ∷ ys) ≡ some z)
find-middle p xs ys y h = elim (Option-cases (find p xs)) [
  | inl e ↦ (y, find-append p xs (y ∷ ys) ∙ rw (e, h) refl)
  | inr (z, e) ↦ (z, find-append p xs (y ∷ ys) ∙ rw e refl)
]

last-some {ℓ} :
    {A : Type ℓ} (o p : Option A) (a : A) → (b : A) × (or_else o (or_else p (some a)) ≡ some b)
last-some none none a = (a, refl)
last-some none (some p) a = (p, refl)
last-some (some o) p a = (o, refl)

assert-matches :
    (v : Reservation) (r : ReservationRequest)
    → reservation_matches v r ≡ true
    → assert_reservation_matches v r ≡ ok tt
unfolding assert_reservation_matches
assert-matches v r h = rw h refl

-- A request on an operation that has a matching decision gets that decision.
pub repeat_decision-granted :
    (r : ReservationRequest) (s : Store) (l : Ledger) (v : Reservation) (g : GrantState) (row : Row)
    → reservation_matches v r ≡ true
    → lookup v.grant_id (ensure_budget l).grants ≡ some g
    → find (is_reservation_row r.operation_id) s.rows ≡ some row
    → (reply : ReserveReply) × (repeat_decision r s l v ≡ ok (reply, s))
      × (reply.granted ≡ status_eq v.status reserved)
      × (reply.reservation ≡ reported v)
unfolding repeat_decision repeat_reply
repeat_decision-granted r s l v g row matches known found =
    let soft = find (is_soft_limit_row r.operation_id) s.rows in
    let guard = find (is_guard_row r.operation_id) s.rows in
    let (id, some_id) = last-some (row_id guard) (row_id soft) row.event_id in
    (
      repeat_reply r s l v g id,
      rw (assert-matches v r matches, known, found, some_id) refl,
      refl,
      refl,
    )
