-- ===== src/Execution/Lifecycle/Exhausted.antt =====
-- The stored execution whose workers are lost again and again: what `requeueStaleExecutions` of
-- src/execution/execution.service.ts leaves of it in the store. A worker claims it outside of this
-- code; what it leaves of the store is a parameter.
use documents_backend.Common.{ℕ, suc, String, ◌≡◌, ap, ◌∙◌, some, eq_string, eq_option, ok}
use documents_backend.Execution.Entity.{queued, running, eq_status, Execution}
use documents_backend.Execution.Service.Store.{Store, Fresh}
use documents_backend.Execution.Lifecycle.{find_root_of, find_execution}
use documents_backend.Execution.Lifecycle.Requeue.{requeue}
use documents_backend.Execution.Lifecycle.Recovery.{named}
use documents_backend.Execution.Lifecycle.Losses.{Claimed, Standing}

-- The execution is stored as running under its id, with the retries that it had, and its root is
-- stored as well.
pub record IsClaimed (id : String) (x : Execution) (s : Store) : Type 0 where
  pub claimed : Execution
  pub root : Execution
  pub found : find_execution id s.executions ≡ some claimed
  pub runs : claimed.status ≡ running
  pub retries : claimed.retry_count ≡ x.retry_count
  pub attempts : claimed.max_attempts ≡ x.max_attempts
  pub root_found : find_root_of claimed s.executions ≡ ok root

-- What a worker makes of the store when the execution is queued in it.
abbrev pub Claims : String → (Store → Store) → Type 0
Claims id claim =
    (x : Execution) (s : Store)
    → find_execution id s.executions ≡ some x
    → x.status ≡ queued
    → IsClaimed id x (claim s)

-- The store after so many rounds, in each of which a worker claims the queued execution and is lost,
-- and the execution, as it is then stored, is recovered.
pub data StoredLosses (id : String) (claim : Store → Store) (s : Store) : ℕ → Store → Type 0 where
  none_lost : StoredLosses id claim s 0 s
  lost_again :
      {n : ℕ} {t t' : Store} {w x y : Execution} (fresh : Fresh) (message : String)
      → StoredLosses id claim s n t
      → find_execution id t.executions ≡ some w
      → w.status ≡ queued
      → find_execution id (claim t).executions ≡ some x
      → requeue fresh message x (claim t) ≡ ok (some y, t')
      → StoredLosses id claim s (suc n) t'

-- Where the stored execution stands after `n` losses.
record StoredStanding (id : String) (x : Execution) (n : ℕ) (t : Store) : Type 0 where
  now : Execution
  found : find_execution id t.executions ≡ some now
  standing : Standing x n now

module _ (id : String) (claim : Store → Store) (claims : Claims id claim) where
  -- The execution that the worker holds.
  abbrev held_of :
      (w : Execution) (t : Store)
      → find_execution id t.executions ≡ some w
      → w.status ≡ queued
      → Claimed w
  held_of w t found waits =
      let c = claims w t found waits in
      let own = named id (claim t).executions c.claimed c.found in
      record {
        claimed = c.claimed;
        store = claim t;
        root = c.root;
        retries = c.retries;
        attempts = c.attempts;
        runs = c.runs;
        found = ap (λ i. find_execution i (claim t).executions) own ∙ c.found;
        root_found = c.root_found;
      }
