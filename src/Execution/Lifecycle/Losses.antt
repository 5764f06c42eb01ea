-- ===== src/Execution/Lifecycle/Losses.antt =====
-- An execution whose workers are lost again and again: the rounds of `requeueStaleExecutions` of
-- src/execution/execution.service.ts on it come to an end.
use documents_backend.Common.{
  ℕ, suc, ◌+◌, ◌<◌, ◌≤◌, String, ◌≡◌, refl, ◌∙◌, ◌↔◌, some, arith, eq_string, eq_option, ◌⊎◌, inl,
  inr, ok,
}
use documents_backend.Execution.Entity.{queued, running, failed, eq_status, Execution}
use documents_backend.Execution.Service.Store.{Store, Fresh}
use documents_backend.Execution.Lifecycle.{with_status, returned, find_root_of, find_execution}
use documents_backend.Execution.Lifecycle.Requeue.{target, requeue_options, requeue}
use documents_backend.Execution.Lifecycle.Settled.{apply_status-ok}
use documents_backend.Execution.Lifecycle.Recovery.{requeue-applied, requeue-bound}

-- A queued execution that a worker has claimed: it is stored as running, with the retries that it
-- had, and its root is stored as well.
pub record Claimed (x : Execution) : Type 0 where
  pub claimed : Execution
  pub store : Store
  pub root : Execution
  pub retries : claimed.retry_count ≡ x.retry_count
  pub attempts : claimed.max_attempts ≡ x.max_attempts
  pub runs : claimed.status ≡ running
  pub found : find_execution claimed.execution_id store.executions ≡ some claimed
  pub root_found : find_root_of claimed store.executions ≡ ok root

-- A worker claims the queued execution and is lost, and the execution is recovered.
pub record Loss (x y : Execution) : Type 0 where
  pub waits : x.status ≡ queued
  pub held : Claimed x
  pub fresh : Fresh
  pub message : String
  pub after : Store
  pub recovered : requeue fresh message held.claimed held.store ≡ ok (some y, after)

pub data Losses (x : Execution) : ℕ → Execution → Type 0 where
  none_lost : Losses x 0 x
  lost_again : {n : ℕ} {y z : Execution} → Losses x n y → Loss y z → Losses x (suc n) z

-- Where an execution stands after `n` losses, from one that is queued with retries to spare.
pub record Standing (x : Execution) (n : ℕ) (y : Execution) : Type 0 where
  pub retries : y.retry_count ≡ x.retry_count + n
  pub attempts : y.max_attempts ≡ x.max_attempts
  pub state :
      ((y.status ≡ queued) × (x.retry_count + n < x.max_attempts))
      ⊎ ((y.status ≡ failed) × (x.retry_count + n ≡ x.max_attempts))

pub attempts-kept :
    (fresh : Fresh) (message : String) (x : Execution) (s s' : Store) (y : Execution)
    → find_execution x.execution_id s.executions ≡ some x
    → x.status ≡ running
    → requeue fresh message x s ≡ ok (some y, s')
    → y.max_attempts ≡ x.max_attempts
unfolding with_status returned
attempts-kept fresh message x s s' y found runs h =
    let (root, _, made, _) =
      apply_status-ok fresh (target x) message (requeue_options x) s s' y x
        (requeue-applied fresh message x s s' y x found runs h) in
    ground arith

pub Loss-Standing : (x y z : Execution) (n : ℕ) → Standing x n y → Loss y z → Standing x (suc n) z
Loss-Standing x y z n h l =
    let c = l.held in
    let (counted, state) =
      requeue-bound l.fresh l.message c.claimed c.store l.after z c.found c.runs l.recovered in
    let kept =
      attempts-kept l.fresh l.message c.claimed c.store l.after z c.found c.runs l.recovered in
    let r = c.retries in
    let a = c.attempts in
    let b = h.retries in
    let m = h.attempts in
    let w = l.waits in
    record {
      retries = omega arith;
      attempts = kept ∙ a ∙ m;
      state = elim h.state [
        | inl (_, spare) ↦ elim state [
          | inl (waits, less) ↦ inl (waits, omega arith)
          | inr (lost, more, _) ↦ inr (lost, omega arith)
        ]
        | inr (lost, _) ↦ absurd (ground arith)
      ];
    }

Losses-Standing :
    (x y : Execution) (n : ℕ)
    → x.status ≡ queued
    → x.retry_count < x.max_attempts
    → Losses x n y
    → Standing x n y
Losses-Standing x _ _ waits spare none_lost = record {
  retries = omega arith;
  attempts = refl;
  state = inl (waits, omega arith);
}
Losses-Standing x _ _ waits spare (lost_again {n = n} {y = y} {z = z} before last) =
    Loss-Standing x y z n (Losses-Standing x y n waits spare before) last

pub Standing-bound :
    (x y : Execution) (n : ℕ)
    → Standing x n y
    → (x.retry_count + n ≤ x.max_attempts)
      × ((y.status ≡ failed) ↔ (x.retry_count + n ≡ x.max_attempts))
Standing-bound x y n s = elim s.state [
  | inl (q, less) ↦ (omega arith, (λ f. absurd (ground arith), λ e. absurd (omega arith)))
  | inr (f, same) ↦ (omega arith, (λ _. same, λ _. f))
]

-- An execution that is queued with retries to spare is lost at most as often as it has attempts
-- left, and it has failed exactly when they are used up.
pub Losses-bound :
    (x y : Execution) (n : ℕ)
    → x.status ≡ queued
    → x.retry_count < x.max_attempts
    → Losses x n y
    → (x.retry_count + n ≤ x.max_attempts)
      × ((y.status ≡ failed) ↔ (x.retry_count + n ≡ x.max_attempts))
Losses-bound x y n waits spare h = Standing-bound x y n (Losses-Standing x y n waits spare h)
