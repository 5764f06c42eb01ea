-- ===== src/Offline/Bundles.antt =====
-- The bundles of src/offline/offline.service.ts: what a client takes along. The file storage is a
-- parameter that answers the content of a file, in base 64, or an error.
use documents_backend.Common.{
  ℕ, String, not, ◌||◌, Option, none, some, List, [], ◌∷◌, ◌++◌, map, filter, find, any, leb,
  nat_eq, str_eq, get_or, truthy, if◌then◌else◌,
}
use documents_backend.Offline.Changes.{Item, Remark, is_id, is_among}

pub record BundledResource : Type 0 where
  pub id : ℕ
  pub project : Option ℕ
  pub path : Option String
  pub file_size : Option ℕ
  pub mime_type : Option String
  pub name : String
  pub original_name : Option String

pub record BundledDoc : Type 0 where
  pub id : ℕ
  pub project : Option ℕ
  pub thread : Option ℕ
  pub resource : Option ℕ

pub record File : Type 0 where
  pub resource_id : ℕ
  pub mime_type : Option String
  pub base64 : String

pub record ExcludedFile : Type 0 where
  pub resource_id : ℕ
  pub name : String
  pub file_size : ℕ

pub record Shelf : Type 0 where
  pub projects : List ℕ
  pub resources : List BundledResource
  pub docs : List BundledDoc
  pub threads : List Item
  pub notes : Option (List Item)
  pub comments : List Remark
  pub marks : List Remark

pub record Bundle : Type 0 where
  pub project : Option ℕ
  pub resources : List BundledResource
  pub docs : List BundledDoc
  pub threads : List Item
  pub comments : List Remark
  pub marks : List Remark
  pub notes : List Item
  pub files : List File
  pub excluded_files : List ExcludedFile

pub record Storage : Type 0 where
  pub get_file : String → Option String
  -- `OFFLINE_FILE_SIZE_LIMIT`.
  pub limit : ℕ

-- `r.path` and `r.fileSize`, if neither is empty or 0.
abbrev pub sized : ℕ → String → Option (String × ℕ)
sized size path = if str_eq path "" || nat_eq size 0 then none else some (path, size)

abbrev pub file_of : BundledResource → Option (String × ℕ)
file_of r = elim r.path [
  | none ↦ none
  | some path ↦ elim r.file_size [ none ↦ none | some size ↦ sized size path ]
]

abbrev pub excluded : BundledResource → ℕ → ExcludedFile
excluded r size = record {
  resource_id = r.id;
  name = if truthy r.original_name then get_or r.original_name "" else r.name;
  file_size = size;
}

abbrev pub add_file : BundledResource → Option String → List File → List File
add_file r none files = files
add_file r (some base64) files =
    record { resource_id = r.id; mime_type = r.mime_type; base64 = base64 } ∷ files

-- One round of the loop, before the rest of the files.
abbrev pub collect_file :
    Storage
    → BundledResource
    → Option (String × ℕ)
    → List File × List ExcludedFile
    → List File × List ExcludedFile
collect_file storage r none rest = rest
collect_file storage r (some (path, size)) (files, others) =
    if leb size storage.limit
    then (add_file r (storage.get_file path) files, others)
    else (files, excluded r size ∷ others)

unfoldable pub collect_files : Storage → List BundledResource → List File × List ExcludedFile
collect_files storage [] = ([], [])
collect_files storage (r ∷ resources) =
    collect_file storage r (file_of r) (collect_files storage resources)

abbrev pub on : (Remark → Option ℕ) → List ℕ → List Remark → List Remark
on column ids remarks = filter (λ r. is_among ids (column r)) remarks

abbrev pub ids_of_docs : List BundledDoc → List ℕ
ids_of_docs docs = map (λ d. d.id) docs

-- `if (fileBase64)`: a file without content is left out here.
abbrev pub with_content : List File → List File
with_content files = filter (λ f. not (str_eq f.base64 "")) files

abbrev pub bundle_of_resource : Storage → BundledResource → Shelf → Bundle
bundle_of_resource storage r shelf =
    let (files, others) = collect_files storage (r ∷ []) in
    record {
      project = r.project;
      resources = r ∷ [];
      docs = [];
      threads = [];
      comments = filter (λ c. is_id c.resource r.id) shelf.comments;
      marks = filter (λ m. is_id m.resource r.id) shelf.marks;
      notes = [];
      files = with_content files;
      excluded_files = others;
    }

abbrev pub bundle_resource : Storage → ℕ → Shelf → Option Bundle
bundle_resource storage id shelf = elim (find (λ r. nat_eq r.id id) shelf.resources) [
  | none ↦ none
  | some r ↦ some (bundle_of_resource storage r shelf)
]

abbrev pub linked_ids : List BundledDoc → List ℕ
linked_ids [] = []
linked_ids (d ∷ docs) = elim d.resource [ none ↦ linked_ids docs | some id ↦ id ∷ linked_ids docs ]

abbrev pub bundle_of_thread : Storage → Item → Shelf → Bundle
bundle_of_thread storage t shelf =
    let docs = filter (λ d. is_id d.thread t.id) shelf.docs in
    let resources = filter (λ r. any (nat_eq r.id) (linked_ids docs)) shelf.resources in
    let (files, others) = collect_files storage resources in
    record {
      project = t.project;
      resources = resources;
      docs = docs;
      threads = t ∷ [];
      comments = on (λ c. c.doc) (ids_of_docs docs) shelf.comments;
      marks = on (λ m. m.doc) (ids_of_docs docs) shelf.marks;
      notes = [];
      files = files;
      excluded_files = others;
    }

abbrev pub bundle_thread : Storage → ℕ → Shelf → Option Bundle
bundle_thread storage id shelf = elim (find (λ t. nat_eq t.id id) shelf.threads) [
  | none ↦ none
  | some t ↦ some (bundle_of_thread storage t shelf)
]

abbrev pub all_on : List BundledDoc → List BundledResource → List Remark → List Remark
all_on docs resources remarks =
    on (λ r. r.doc) (ids_of_docs docs) remarks
    ++ on (λ r. r.resource) (map (λ r. r.id) resources) remarks

abbrev pub bundle_of_project : Storage → ℕ → Shelf → Bundle
bundle_of_project storage id shelf =
    let docs = filter (λ d. is_id d.project id) shelf.docs in
    let resources = filter (λ r. is_id r.project id) shelf.resources in
    let (files, others) = collect_files storage resources in
    record {
      project = some id;
      resources = resources;
      docs = docs;
      threads = filter (λ t. is_id t.project id) shelf.threads;
      comments = all_on docs resources shelf.comments;
      marks = all_on docs resources shelf.marks;
      notes = filter (λ n. is_id n.project id) (get_or shelf.notes []);
      files = files;
      excluded_files = others;
    }

unfoldable pub bundle_project : Storage → ℕ → Shelf → Option Bundle
bundle_project storage id shelf =
    if any (nat_eq id) shelf.projects then some (bundle_of_project storage id shelf) else none
