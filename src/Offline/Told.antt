-- ===== src/Offline/Told.antt =====
-- Which comments and marks `getChangesSince` of src/offline/offline.service.ts tells a client of.
use mathlib.Core.List.{Memᴰ}
use documents_backend.Common.{
  ℕ, Bool, true, ◌&&◌, ◌≡◌, refl, ◌↔◌, Option, List, [], ◌∷◌, ◌++◌, filter, ltb, ◌⊎◌, inl, inr,
  and-parts, Bool-cases, arith,
}
use documents_backend.Offline.Changes.{
  Item, Remark, Library, is_id, is_among, changed_in, ids_of, pushed, told, get_changes_since,
}

filter-mem :
    {A : Type 0} (p : A → Bool) (xs : List A) {x : A}
    → Memᴰ x (filter p xs) ↔ (Memᴰ x xs × (p x ≡ true))
filter-mem p xs {x} = (to xs, λ h. from xs h.0 h.1)
  where
    to : (ys : List _) → Memᴰ x (filter p ys) → Memᴰ x ys × (p x ≡ true)
    to [] h = elim h [ ]
    to (y ∷ ys) h = elim (Bool-cases (p y)) [
      | inl t ↦ elim (rw t at h) [
        | Memᴰ.head same ↦ (Memᴰ.head same, rw same t)
        | Memᴰ.tail m ↦ let (own, holds) = to ys m in (Memᴰ.tail own, holds)
      ]
      | inr t ↦ let (own, holds) = to ys (rw t at h) in (Memᴰ.tail own, holds)
    ]

    from : (ys : List _) → Memᴰ x ys → p x ≡ true → Memᴰ x (filter p ys)
    from [] m h = elim m [ ]
    from (y ∷ ys) (Memᴰ.head same) h =
        let here : p y ≡ true = rw (← same) h in rw here (Memᴰ.head same)
    from (y ∷ ys) (Memᴰ.tail m) h = elim (Bool-cases (p y)) [
      | inl t ↦ rw t (Memᴰ.tail (from ys m h))
      | inr t ↦ rw t (from ys m h)
    ]

append-mem : {A : Type 0} (xs ys : List A) {x : A} → Memᴰ x (xs ++ ys) ↔ (Memᴰ x xs ⊎ Memᴰ x ys)
append-mem [] ys = (λ h. inr h, λ h. elim h [ inl m ↦ elim m [ ] | inr m ↦ m ])
append-mem (y ∷ xs) ys {x = x} =
    let rest = append-mem xs ys {x = x} in
    (
      λ h. elim h [
        | Memᴰ.head same ↦ inl (Memᴰ.head same)
        | Memᴰ.tail m ↦ elim (rest.0 m) [ inl l ↦ inl (Memᴰ.tail l) | inr r ↦ inr r ]
      ],
      λ h. elim h [
        | inl m ↦ elim m [
          | Memᴰ.head same ↦ Memᴰ.head same
          | Memᴰ.tail l ↦ Memᴰ.tail (rest.1 (inl l))
        ]
        | inr r ↦ Memᴰ.tail (rest.1 (inr r))
      ],
    )

pushed-mem :
    (column : Remark → Option ℕ) (ids : List ℕ) (since : ℕ) (remarks : List Remark) {r : Remark}
    → Memᴰ r (pushed column ids since remarks)
      ↔ (Memᴰ r remarks × ((is_among ids (column r) && ltb since r.updated_at) ≡ true))
pushed-mem column [] since remarks = (λ h. elim h [ ], λ h. cc (h.1))
pushed-mem column (id ∷ ids) since remarks = filter-mem _ remarks

-- The row has the number that the column holds, and is among the changed ones.
abbrev pub IsOn : Option ℕ → ℕ → ℕ → List Item → Type 0
IsOn column since project items =
    (i : Item) × Memᴰ i items × (changed_in since project i ≡ true) × (is_id column i.id ≡ true)

is_among-mem :
    (column : Option ℕ) (items : List Item)
    → (is_among (ids_of items) column ≡ true)
      ↔ ((i : Item) × Memᴰ i items × (is_id column i.id ≡ true))
is_among-mem column [] = (λ h. cc, λ (i, m, h). elim m [ ])
is_among-mem column (x ∷ items) =
    let rest = is_among-mem column items in
    (
      λ h. elim (Bool-cases (is_id column x.id)) [
        | inl t ↦ (x, Memᴰ.head refl, t)
        | inr t ↦ let (i, m, own) = rest.0 (ground arith) in (i, Memᴰ.tail m, own)
      ],
      λ (i, m, own). elim m [
        | Memᴰ.head same ↦ let here : is_id column x.id ≡ true = rw (← same) own in ground arith
        | Memᴰ.tail n ↦ let there = rest.1 (i, n, own) in ground arith
      ],
    )

-- Of the changed rows, one has the number that the column holds.
changed-mem :
    (column : Option ℕ) (since project : ℕ) (items : List Item)
    → (is_among (ids_of (filter (changed_in since project) items)) column ≡ true)
      ↔ IsOn column since project items
changed-mem column since project items =
    let changed = filter (changed_in since project) items in
    (
      λ h.
          let (i, m, own) = (is_among-mem column changed).0 h in
          let (there, new) = (filter-mem (changed_in since project) items).0 m in
          (i, there, new, own),
      λ (i, there, new, own).
          (is_among-mem column changed).1
            (i, (filter-mem (changed_in since project) items).1 (there, new), own),
    )

-- A comment or a mark is told if it is new and stands on a row that is new too.
told-mem :
    (since project : ℕ) (docs resources : List Item) (remarks : List Remark) {r : Remark}
    → Memᴰ r (
        told
          (filter (changed_in since project) docs)
          (filter (changed_in since project) resources)
          since
          remarks)
      ↔ (Memᴰ r remarks
          × (ltb since r.updated_at ≡ true)
          × (IsOn r.doc since project docs ⊎ IsOn r.resource since project resources))
told-mem since project docs resources remarks {r = r} =
    let on_docs = ids_of (filter (changed_in since project) docs) in
    let on_resources = ids_of (filter (changed_in since project) resources) in
    let parts =
      append-mem (pushed (λ x. x.doc) on_docs since remarks)
        (pushed (λ x. x.resource) on_resources since remarks) {x = r} in
    let doc = pushed-mem (λ x. x.doc) on_docs since remarks {r = r} in
    let resource = pushed-mem (λ x. x.resource) on_resources since remarks {r = r} in
    (
      λ h. elim (parts.0 h) [
        | inl m ↦
            let (there, both) = doc.0 m in
            let (own, new) = and-parts _ (ltb since r.updated_at) both in
            (there, new, inl ((changed-mem r.doc since project docs).0 own))
        | inr m ↦
            let (there, both) = resource.0 m in
            let (own, new) = and-parts _ (ltb since r.updated_at) both in
            (there, new, inr ((changed-mem r.resource since project resources).0 own))
      ],
      λ (there, new, on). elim on [
        | inl own ↦
            parts.1 (inl (doc.1 (there, rw ((changed-mem r.doc since project docs).1 own) new)))
        | inr own ↦ parts.1 (
            inr
              (resource.1 (there, rw ((changed-mem r.resource since project resources).1 own) new)))
      ],
    )

-- A client is told of a comment or a mark exactly if it changed since the time and stands on a
-- document or a resource of the project that changed since the time as well.
pub get_changes_since-told :
    (since project : ℕ) (library : Library) (r : Remark)
    → (Memᴰ r (get_changes_since since project library).comments ↔ (
        Memᴰ r library.comments
        × (ltb since r.updated_at ≡ true)
        × (IsOn r.doc since project library.docs
            ⊎ IsOn r.resource since project library.resources)))
      × (Memᴰ r (get_changes_since since project library).marks ↔ (
          Memᴰ r library.marks
          × (ltb since r.updated_at ≡ true)
          × (IsOn r.doc since project library.docs
              ⊎ IsOn r.resource since project library.resources)))
unfolding get_changes_since
get_changes_since-told since project library r = (
  told-mem since project library.docs library.resources library.comments,
  told-mem since project library.docs library.resources library.marks,
)
