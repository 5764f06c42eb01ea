-- ===== src/Execution/Progress/Totals.antt =====
-- The sums of the phase counters of a ledger (src/execution/execution-progress.ts).
use documents_backend.Common.{
  ℕ, ◌+◌, ◌≤◌, Bool, String, ◌≡◌, refl, some, none, [], ◌∷◌, arith, str_eq, eq_iff, Bool-cases, inl,
  inr, ◌∙◌, nat_eq, get_or,
}
use documents_backend.Common.Dict.{
  Dict, lookup, insert, adjust, insert_new, lookup-adjust-some, lookup-insert_new,
}
use documents_backend.Execution.Types.{ProgressCounter, TokenUsage}
use documents_backend.Execution.Progress.Counters.{counter, record_started, record_finished}

-- The sum of one field over the counters of all phases.
unfoldable pub total : (ProgressCounter → ℕ) → Dict ProgressCounter → ℕ
total f [] = 0
total f ((k, c) ∷ d) = f c + total f d

module _ (f : ProgressCounter → ℕ) where
  total-insert :
      (k : String) (c : ProgressCounter) (d : Dict ProgressCounter)
      → lookup k d ≡ none
      → total f (insert k c d) ≡ total f d + f c
  unfolding total lookup insert
  total-insert k c [] h = omega arith
  total-insert k c ((j, x) ∷ d) h = ground (arith, total-insert k c d)

  total-insert_new :
      (k : String) (d : Dict ProgressCounter)
      → f counter ≡ 0
      → total f (insert_new k counter d) ≡ total f d
  unfolding insert_new
  total-insert_new k d zero_count = ground (arith, total-insert k counter d)

  total-adjust :
      (k : String) (g : ProgressCounter → ProgressCounter) (d : Dict ProgressCounter)
      (c : ProgressCounter)
      → lookup k d ≡ some c
      → total f (adjust k g d) + f c ≡ total f d + f (g c)
  unfolding total lookup adjust
  total-adjust k g [] c h = cc
  total-adjust k g ((j, x) ∷ d) c h = elim (Bool-cases (str_eq j k)) [
    | inl e ↦ let same : x ≡ c = ground arith in rw (e, same) (omega arith)
    | inr e ↦ let rest = total-adjust k g d c (ground arith) in rw e (omega (arith, rest))
  ]

-- The counters of the phases add up to the counter of all inferences.
pub record IsTallied (c : ProgressCounter) (d : Dict ProgressCounter) : Type 0 where
  pub started : total (λ x. x.started) d ≡ c.started
  pub finished : total (λ x. x.finished) d ≡ c.finished
  pub failed : total (λ x. x.failed) d ≡ c.failed

abbrev pub HasPhase : Dict ProgressCounter → String → Type 0
HasPhase d p = (c : ProgressCounter) × (lookup p d ≡ some c)

pub insert_new-HasPhase :
    (p : String) (d : Dict ProgressCounter) → HasPhase (insert_new p counter d) p
insert_new-HasPhase p d =
    (get_or (lookup p d) counter, lookup-insert_new p p counter d ∙ ground (arith, eq_iff p p))

pub adjust-HasPhase :
    (p q : String) (g : ProgressCounter → ProgressCounter) (d : Dict ProgressCounter)
    → HasPhase d q
    → HasPhase (adjust p g d) q
adjust-HasPhase p q g d (c, e) = (_, lookup-adjust-some p q g d c e)

pub insert_new-kept :
    (p q : String) (d : Dict ProgressCounter) → HasPhase d q → HasPhase (insert_new p counter d) q
insert_new-kept p q d (c, e) = elim (Bool-cases (str_eq p q)) [
  | inl t ↦ (get_or (lookup p d) counter, lookup-insert_new p q counter d ∙ rw t refl)
  | inr t ↦ (c, lookup-insert_new p q counter d ∙ rw t e)
]

module _ (c : ProgressCounter) (d : Dict ProgressCounter) where
  pub IsTallied-start :
      (p : String)
      → IsTallied c d
      → IsTallied (record_started c) (adjust p record_started (insert_new p counter d))
  unfolding record_started
  IsTallied-start p h =
      let (x, e) = insert_new-HasPhase p d in
      let d' = insert_new p counter d in
      record {
        started = omega (
          arith,
          total-adjust (λ x. x.started) p record_started d' x e,
          total-insert_new (λ x. x.started) p d refl,
          h.started,
        );
        finished = omega (
          arith,
          total-adjust (λ x. x.finished) p record_started d' x e,
          total-insert_new (λ x. x.finished) p d refl,
          h.finished,
        );
        failed = omega (
          arith,
          total-adjust (λ x. x.failed) p record_started d' x e,
          total-insert_new (λ x. x.failed) p d refl,
          h.failed,
        );
      }

  pub IsTallied-finish :
      (b : Bool) (p : String)
      → HasPhase d p
      → IsTallied c d
      → IsTallied (record_finished b c) (adjust p (record_finished b) d)
  unfolding record_finished
  IsTallied-finish b p (x, e) h = record {
    started = omega (arith, total-adjust (λ x. x.started) p (record_finished b) d x e, h.started);
    finished =
        omega (arith, total-adjust (λ x. x.finished) p (record_finished b) d x e, h.finished);
    failed =
        let moved = total-adjust (λ x. x.failed) p (record_finished b) d x e in
        ground (arith, moved, h.failed);
  }

-- No more fail than finish, and what started has finished or is unfinished.
pub record IsBalanced (c : ProgressCounter) : Type 0 where
  pub failed : c.failed ≤ c.finished
  pub unfinished : c.unfinished ≤ c.started
  pub settled : c.started ≤ c.finished + c.unfinished

pub IsBalanced-start : (c : ProgressCounter) → IsBalanced c → IsBalanced (record_started c)
unfolding record_started
IsBalanced-start c h = record {
  failed = h.failed;
  unfinished = omega (arith, h.unfinished);
  settled = omega (arith, h.settled);
}

pub IsBalanced-finish :
    (b : Bool) (c : ProgressCounter) → IsBalanced c → IsBalanced (record_finished b c)
unfolding record_finished
IsBalanced-finish b c h = record {
  failed = ground (arith, h.failed);
  unfinished = omega (arith, h.unfinished);
  settled = omega (arith, h.settled);
}

-- The total is known exactly if no finished inference lacked the number.
pub record IsCounted (u : TokenUsage) (c : ProgressCounter) : Type 0 where
  pub known : u.known ≡ nat_eq u.unknown_operations 0
  pub unknown : u.unknown_operations ≤ c.finished
