-- ===== src/Offline/Tests.antt =====
-- A synchronisation by evaluation, and the theorems at inputs of that kind.
use mathlib.Core.List.{Memᴰ}
use documents_backend.Common.{
  ℕ, suc, ◌+◌, ◌≤◌, String, true, false, ◌≡◌, ◌↔◌, refl, none, some, List, [], ◌∷◌, nat_eq, ltb,
  eq_string, arith, ◌⊎◌, inl, inr,
}
use documents_backend.Common.Dict.{lookup, insert, adjust}
use documents_backend.Offline.Sync.{
  EntityRow, Tables, SyncChange, applied, conflict, Database, find_row, assign_fields, save_row,
  is_deleted, delete_rows, answer, apply_change, apply_sync,
}
use documents_backend.Offline.Kept.{Holds, patched, deleted, apply_sync-Holds}
use documents_backend.Offline.Repeated.{apply_sync-conflict}
use documents_backend.Offline.Changes.{Remark, Library, get_changes_since}
use documents_backend.Offline.Bundles.{
  BundledResource, File, Shelf, Storage, collect_files, bundle_of_project, bundle_project,
}
use documents_backend.Offline.Bundled.{IsPlaced, IsOwn, bundle_project-IsPlaced}
use documents_backend.Offline.Told.{IsOn, get_changes_since-told}

-- What the runs compute with.
machine : Unit {0}
unfolding lookup insert adjust assign_fields save_row is_deleted delete_rows apply_change apply_sync
    get_changes_since
machine = tt

-- The number after those of all rows.
next_id : List (EntityRow String) → ℕ
next_id [] = 0
next_id (r ∷ rows) = suc (r.id + next_id rows)

-- Saves happen at 100, and nothing refuses a deletion.
abbrev database : Database String
database = record {
  touch = λ r. 100;
  new_id = next_id;
  resource_of = λ r. none;
  refuses = λ tables type id. false;
}

next_id-above : (rows : List (EntityRow String)) (n : ℕ) → next_id rows ≤ n → find_row n rows ≡ none
unfolding next_id
next_id-above [] n h = refl
next_id-above (r ∷ rows) n h =
    let rest = next_id-above rows n (omega arith) in
    let other : nat_eq r.id n ≡ false = ground arith in ground (arith, rest)

abbrev note : ℕ → ℕ → String → EntityRow String
note id updated_at text = record { id = id; updated_at = updated_at; fields = ("text", text) ∷ [] }

abbrev tables : Tables String
tables = ("note", some (note 1 50 "new" ∷ note 2 10 "old" ∷ [])) ∷ ("mark", none) ∷ []

abbrev change : String → ℕ → String → ℕ → SyncChange String
change method id text updated_at = record {
  entity_type = "note";
  entity_id = id;
  method = method;
  payload = record { id = none; updated_at = none; fields = ("text", text) ∷ [] };
  updated_at = updated_at;
}

abbrev paper : BundledResource
paper = record {
  id = 3;
  project = some 1;
  path = some "a.pdf";
  file_size = some 10;
  mime_type = some "application/pdf";
  name = "a";
  original_name = none;
}

abbrev shelf : Shelf
shelf = record {
  projects = 1 ∷ [];
  resources = paper ∷ record paper { id = 4; path = some "b.pdf"; file_size = some 30 } ∷ [];
  docs = [];
  threads = [];
  notes = none;
  comments = [];
  marks = [];
}

abbrev storage : Storage
storage = record { get_file = λ path. some path; limit = 20 }

-- The second file is larger than the limit.
bundle_project-IsPlaced_example :
    ((r : BundledResource)
      → Memᴰ r shelf.resources
      → IsPlaced storage r
          (record { resource_id = 3; mime_type = some "application/pdf"; base64 = "a.pdf" } ∷ [])
          (record { resource_id = 4; name = "a"; file_size = 30 } ∷ []))
    × ((f : File)
        → Memᴰ f
            (record { resource_id = 3; mime_type = some "application/pdf"; base64 = "a.pdf" } ∷ [])
        → IsOwn storage shelf.resources f)
unfolding bundle_project collect_files
bundle_project-IsPlaced_example =
    bundle_project-IsPlaced storage 1 shelf {b = bundle_of_project storage 1 shelf} refl

abbrev batch : List (SyncChange String)
batch = change "PATCH" 1 "late" 40 ∷ change "PATCH" 2 "fine" 20 ∷ change "DELETE" 2 "" 30 ∷ []

applies : apply_sync database batch tables ≡ (
  answer (change "PATCH" 1 "late" 40) conflict (some (note 1 50 "new"))
      ∷ answer (change "PATCH" 2 "fine" 20) applied (some (note 2 100 "fine"))
      ∷ answer (change "DELETE" 2 "" 30) applied none
      ∷ [],
  ("note", some (note 1 50 "new" ∷ [])) ∷ ("mark", none) ∷ [],
)
unfolding machine
applies = refl

apply_sync-Holds_example : Holds "note" 1 (note 1 50 "new") (apply_sync database batch tables).1
unfolding machine
apply_sync-Holds_example =
    apply_sync-Holds database "note" 1 (note 1 50 "new") batch tables
      (λ rows. next_id-above rows (next_id rows) (omega arith))
      (
        patched refl refl (inl (omega arith)),
        (patched refl refl (inr refl), (deleted refl refl (λ e same. cc), tt)),
      )
      (note 1 50 "new" ∷ note 2 10 "old" ∷ [], refl, refl)

-- A deleted resource takes a newer comment on it along, and leaves a note.
abbrev on_resource : Database String
on_resource = record database {
  resource_of = λ r. elim (lookup "resourceId" r.fields) [ none ↦ none | some s ↦ some 3 ];
}

abbrev deletes_resource : SyncChange String
deletes_resource = record (change "DELETE" 3 "" 10) { entity_type = "resource" }

comment_gone :
    (apply_sync on_resource (deletes_resource ∷ []) (
      ("resource", some (note 3 5 "paper" ∷ []))
      ∷ (
        "comment",
        some (record { id = 4; updated_at = 50; fields = ("resourceId", "3") ∷ [] } ∷ []),
      )
      ∷ ("note", some (note 3 50 "new" ∷ []))
      ∷ [])).1
    ≡ ("resource", some []) ∷ ("comment", some []) ∷ ("note", some (note 3 50 "new" ∷ [])) ∷ []
unfolding machine
comment_gone = refl

-- The second of two edits that were made at 20 and 30 is refused, since the first is saved at 100.
apply_sync-conflict_example :
    apply_sync database (change "PATCH" 2 "one" 20 ∷ change "PATCH" 2 "two" 30 ∷ []) tables ≡ (
      answer (change "PATCH" 2 "one" 20) applied (some (note 2 100 "one"))
          ∷ answer (change "PATCH" 2 "two" 30) conflict (some (note 2 100 "one"))
          ∷ [],
      ("note", some (note 1 50 "new" ∷ note 2 100 "one" ∷ [])) ∷ ("mark", none) ∷ [],
    )
unfolding machine
apply_sync-conflict_example =
    apply_sync-conflict database "note" 2 (change "PATCH" 2 "one" 20) (change "PATCH" 2 "two" 30)
      tables (note 1 50 "new" ∷ note 2 10 "old" ∷ []) (note 2 10 "old")
      (record { method = refl; type_same = refl; id_same = refl; own_id = refl })
      (record { method = refl; type_same = refl; id_same = refl; own_id = refl }) refl refl
      (omega arith) (omega arith)

-- A document that has not changed, with a new comment on it.
abbrev comment : Remark
comment = record { id = 7; doc = some 3; resource = none; updated_at = 60 }

abbrev library : Library
library = record {
  resources = [];
  docs = record { id = 3; project = some 1; updated_at = 20 } ∷ [];
  threads = [];
  notes = none;
  comments = comment ∷ [];
  marks = [];
}

untold : (get_changes_since 50 1 library).comments ≡ []
unfolding machine
untold = refl

get_changes_since-told_example :
    (Memᴰ comment (get_changes_since 10 1 library).comments ↔ (
      Memᴰ comment library.comments
      × (ltb 10 60 ≡ true)
      × (IsOn (some 3) 10 1 library.docs ⊎ IsOn none 10 1 library.resources)))
    × (Memᴰ comment (get_changes_since 10 1 library).marks ↔ (
        Memᴰ comment library.marks
        × (ltb 10 60 ≡ true)
        × (IsOn (some 3) 10 1 library.docs ⊎ IsOn none 10 1 library.resources)))
get_changes_since-told_example = get_changes_since-told 10 1 library comment
