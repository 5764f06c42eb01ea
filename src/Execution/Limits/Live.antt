-- ===== src/Execution/Limits/Live.antt =====
-- How many reservations of a grant and a bucket are still open.
use documents_backend.Common.{
  ℕ, ◌+◌, String, Bool, ◌&&◌, true, false, ◌≡◌, refl, none, some, [], ◌∷◌, ◌==◌, eq_string, eq_iff,
  str_eq, if◌then◌else◌, arith, All, Bool-cases, inl, inr,
}
use documents_backend.Common.Dict.{Dict, lookup, insert, adjust}
use documents_backend.Execution.Types.{
  Bucket, eq_bucket, status_eq, reserved, consumed, Reservation, GrantState,
}

-- The reservation is charged to this grant and bucket.
abbrev pub is_for : String → Bucket → Reservation → Bool
is_for g k r = r.grant_id == g && r.bucket == k

abbrev pub is_open : String → Bucket → Reservation → Bool
is_open g k r = status_eq r.status reserved && is_for g k r

abbrev pub one_if : Bool → ℕ
one_if b = if b then 1 else 0

unfoldable pub live : String → Bucket → Dict Reservation → ℕ
live g k [] = 0
live g k ((id, r) ∷ d) = one_if (is_open g k r) + live g k d

abbrev pub mark_consumed : Reservation → Reservation
mark_consumed r = record r { status = consumed }

module _ (g : String) (k : Bucket) (id : String) where
  -- A new reservation adds itself.
  pub live-insert :
      (r : Reservation) (d : Dict Reservation)
      → lookup id d ≡ none
      → live g k (insert id r d) ≡ live g k d + one_if (is_open g k r)
  unfolding live lookup insert
  live-insert r [] h = ground arith
  live-insert r ((j, x) ∷ d) h = ground (arith, live-insert r d)

  -- One that is consumed takes itself away.
  pub live-consume :
      (d : Dict Reservation) {r : Reservation}
      → lookup id d ≡ some r
      → live g k (adjust id mark_consumed d) + one_if (is_open g k r) ≡ live g k d
  unfolding live lookup adjust
  live-consume [] h = ground arith
  live-consume ((j, x) ∷ d) {r} h = ground (arith, live-consume d {r = r})

-- The grant of every open reservation is known.
abbrev pub IsKnown : Dict GrantState → Reservation → Type 0
IsKnown grants r =
    status_eq r.status reserved ≡ true → (st : GrantState) × (lookup r.grant_id grants ≡ some st)

abbrev pub AllKnown : Dict GrantState → Dict Reservation → Type 0
AllKnown grants d = All (λ e. IsKnown grants e.1) d

module _ (grants : Dict GrantState) (g : String) (k : Bucket)
    (missing : lookup g grants ≡ none) where
  not-open : (r : Reservation) → IsKnown grants r → is_open g k r ≡ false
  not-open r known = elim (Bool-cases (is_open g k r)) [
    | inr e ↦ e
    | inl e ↦
        let same = (eq_iff r.grant_id g).0 (ground arith) in
        let (st, found) = known (ground arith) in absurd (cc)
  ]

  -- A grant that is not known has no open reservation.
  pub live-unknown : (d : Dict Reservation) → AllKnown grants d → live g k d ≡ 0
  unfolding live
  live-unknown [] h = refl
  live-unknown ((id, r) ∷ d) (h, hs) = ground (arith, not-open r h, live-unknown d hs)

-- Known grants stay known as the dictionary of grants grows.
abbrev pub Grows : Dict GrantState → Dict GrantState → Type 0
Grows a b =
    (g : String) (st : GrantState)
    → lookup g a ≡ some st
    → (st' : GrantState) × (lookup g b ≡ some st')

pub AllKnown-Grows :
    (a b : Dict GrantState) → Grows a b → (d : Dict Reservation) → AllKnown a d → AllKnown b d
AllKnown-Grows a b grows [] h = h
AllKnown-Grows a b grows ((id, r) ∷ d) (h, hs) =
    (λ held. let (st, found) = h held in grows r.grant_id st found, AllKnown-Grows a b grows d hs)

pub AllKnown-insert :
    (grants : Dict GrantState) (id : String) (r : Reservation) (d : Dict Reservation)
    → IsKnown grants r
    → AllKnown grants d
    → AllKnown grants (insert id r d)
unfolding insert
AllKnown-insert grants id r [] h hs = (h, tt)
AllKnown-insert grants id r ((j, x) ∷ d) h (k, ks) = elim (Bool-cases (str_eq j id)) [
  | inl e ↦ rw e (h, ks)
  | inr e ↦ rw e (k, AllKnown-insert grants id r d h ks)
]

pub AllKnown-consume :
    (grants : Dict GrantState) (id : String) (d : Dict Reservation)
    → AllKnown grants d
    → AllKnown grants (adjust id mark_consumed d)
unfolding adjust
AllKnown-consume grants id [] hs = hs
AllKnown-consume grants id ((j, x) ∷ d) (k, ks) = elim (Bool-cases (str_eq j id)) [
  | inl e ↦ rw e ((λ held. cc), ks)
  | inr e ↦ rw e (k, AllKnown-consume grants id d ks)
]

pub AllKnown-lookup :
    (grants : Dict GrantState) (id : String) (d : Dict Reservation) {r : Reservation}
    → AllKnown grants d
    → lookup id d ≡ some r
    → IsKnown grants r
unfolding lookup
AllKnown-lookup grants id [] hs e = cc
AllKnown-lookup grants id ((j, x) ∷ d) {r} (k, ks) e = elim (Bool-cases (str_eq j id)) [
  | inl t ↦ let same : x ≡ r = ground arith in rw same at k
  | inr t ↦ AllKnown-lookup grants id d {r = r} ks (ground arith)
]
