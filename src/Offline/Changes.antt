-- ===== src/Offline/Changes.antt =====
-- `getChangesSince` of src/offline/offline.service.ts: what a client that was away is told.
use documents_backend.Common.{
  ℕ, Bool, false, ◌&&◌, Option, none, some, List, [], ◌∷◌, ◌++◌, map, filter, any, ltb, nat_eq,
  get_or,
}

-- A row of the project, and a comment or a mark on a document or a resource.
pub record Item : Type 0 where
  pub id : ℕ
  pub project : Option ℕ
  pub updated_at : ℕ

pub record Remark : Type 0 where
  pub id : ℕ
  pub doc : Option ℕ
  pub resource : Option ℕ
  pub updated_at : ℕ

-- Notes may not be installed.
pub record Library : Type 0 where
  pub resources : List Item
  pub docs : List Item
  pub threads : List Item
  pub notes : Option (List Item)
  pub comments : List Remark
  pub marks : List Remark

pub record Changes : Type 0 where
  pub resources : List Item
  pub docs : List Item
  pub threads : List Item
  pub comments : List Remark
  pub marks : List Remark
  pub notes : List Item

abbrev pub is_id : Option ℕ → ℕ → Bool
is_id none id = false
is_id (some n) id = nat_eq n id

-- `IN (:...ids)`.
abbrev pub is_among : List ℕ → Option ℕ → Bool
is_among ids column = any (is_id column) ids

abbrev pub changed_in : ℕ → ℕ → Item → Bool
changed_in since project item = is_id item.project project && ltb since item.updated_at

abbrev pub ids_of : List Item → List ℕ
ids_of items = map (λ i. i.id) items

abbrev pub find_changed_since : (Remark → Option ℕ) → List ℕ → ℕ → List Remark → List Remark
find_changed_since column ids since remarks =
    filter (λ r. is_among ids (column r) && ltb since r.updated_at) remarks

-- The query is made only if there are ids.
abbrev pub pushed : (Remark → Option ℕ) → List ℕ → ℕ → List Remark → List Remark
pushed column [] since remarks = []
pushed column (id ∷ ids) since remarks = find_changed_since column (id ∷ ids) since remarks

-- The comments or marks on the documents and on the resources.
abbrev pub told : List Item → List Item → ℕ → List Remark → List Remark
told docs resources since remarks =
    pushed (λ r. r.doc) (ids_of docs) since remarks
    ++ pushed (λ r. r.resource) (ids_of resources) since remarks

unfoldable pub get_changes_since : ℕ → ℕ → Library → Changes
get_changes_since since project library =
    let resources = filter (changed_in since project) library.resources in
    let docs = filter (changed_in since project) library.docs in
    record {
      resources = resources;
      docs = docs;
      threads = filter (changed_in since project) library.threads;
      comments = told docs resources since library.comments;
      marks = told docs resources since library.marks;
      notes = filter (changed_in since project) (get_or library.notes []);
    }
