-- ===== src/Offline/Bundled.antt =====
-- Which files of a bundle of src/offline/offline.service.ts are in it.
use mathlib.Core.List.{Memᴰ}
use documents_backend.Common.{
  ℕ, ◌<◌, ◌≤◌, String, ◌≡◌, refl, ap, sym, ◌∙◌, any, filter, Option, none, some, List, [], ◌∷◌, leb,
  nat_eq, arith, inl, inr, Bool-cases,
}
use documents_backend.Offline.Changes.{is_id}
use documents_backend.Offline.Bundles.{
  BundledResource, File, ExcludedFile, Shelf, Bundle, Storage, file_of, excluded, add_file,
  collect_file, collect_files, bundle_of_project, bundle_project,
}

-- A resource with a file of a size is answered for: its file is in the bundle if it is small enough
-- and can be read, and listed as left out if it is not.
pub record IsPlaced (storage : Storage) (r : BundledResource) (files : List File)
    (others : List ExcludedFile) : Type 0 where
  pub kept :
      (path : String) (size : ℕ) (base64 : String)
      → file_of r ≡ some (path, size)
      → size ≤ storage.limit
      → storage.get_file path ≡ some base64
      → Memᴰ (record { resource_id = r.id; mime_type = r.mime_type; base64 = base64 }) files
  pub left_out :
      (path : String) (size : ℕ)
      → file_of r ≡ some (path, size)
      → storage.limit < size
      → Memᴰ (excluded r size) others

-- A file of the bundle is what the storage has for one of the resources, and within the limit.
pub record IsOwn (storage : Storage) (resources : List BundledResource) (f : File) : Type 0 where
  pub resource : BundledResource
  pub path : String
  pub size : ℕ
  pub among : Memᴰ resource resources
  pub has_file : file_of resource ≡ some (path, size)
  pub small : size ≤ storage.limit
  pub content : storage.get_file path ≡ some f.base64
  pub own : f.resource_id ≡ resource.id

module _ (storage : Storage) (r : BundledResource) where
  add_file-head :
      (o : Option String) (base64 : String) (files : List File)
      → o ≡ some base64
      → Memᴰ
          (record { resource_id = r.id; mime_type = r.mime_type; base64 = base64 })
          (add_file r o files)
  add_file-head none base64 files h = cc
  add_file-head (some c) base64 files h = let same : c ≡ base64 = cc in rw same (Memᴰ.head refl)

  add_file-tail :
      (o : Option String) (f : File) (files : List File)
      → Memᴰ f files
      → Memᴰ f (add_file r o files)
  add_file-tail none f files m = m
  add_file-tail (some c) f files m = Memᴰ.tail m

  -- The files and the exclusions that a round adds.
  collect_file-places :
      (o : Option (String × ℕ)) (files : List File) (others : List ExcludedFile)
      → file_of r ≡ o
      → IsPlaced storage r
          (collect_file storage r o (files, others)).0
          (collect_file storage r o (files, others)).1
  collect_file-places none files others e = record {
    kept = λ path size base64 f. cc;
    left_out = λ path size f. cc;
  }
  collect_file-places (some (path, size)) files others e =
      elim (Bool-cases (leb size storage.limit)) [
        | inl t ↦ rw t (record {
          kept = λ path2 size2 base64 f small read.
              let same : path ≡ path2 = cc in
              add_file-head (storage.get_file path) base64 files (ap storage.get_file same ∙ read);
          left_out = λ path2 size2 f large. let same : size ≡ size2 = cc in absurd (ground arith);
        })
        | inr t ↦ rw t (record {
          kept = λ path2 size2 base64 f small read.
              let same : size ≡ size2 = cc in absurd (ground arith);
          left_out =
              λ path2 size2 f large. let same : size ≡ size2 = cc in rw same (Memᴰ.head refl);
        })
      ]

  collect_file-keeps :
      (o : Option (String × ℕ)) (q : BundledResource) (files : List File)
      (others : List ExcludedFile)
      → IsPlaced storage q files others
      → IsPlaced storage q
          (collect_file storage r o (files, others)).0
          (collect_file storage r o (files, others)).1
  collect_file-keeps none q files others h = h
  collect_file-keeps (some (path, size)) q files others h =
      elim (Bool-cases (leb size storage.limit)) [
        | inl t ↦ rw t (record {
          kept = λ path2 size2 base64 f small read.
              add_file-tail (storage.get_file path) _ files
                (h.kept path2 size2 base64 f small read);
          left_out = h.left_out;
        })
        | inr t ↦ rw t (record {
          kept = h.kept;
          left_out = λ path2 size2 f large. Memᴰ.tail (h.left_out path2 size2 f large);
        })
      ]

pub collect_files-IsPlaced :
    (storage : Storage) (resources : List BundledResource) (r : BundledResource)
    → Memᴰ r resources
    → IsPlaced storage r (collect_files storage resources).0 (collect_files storage resources).1
unfolding collect_files
collect_files-IsPlaced storage [] r m = elim m [ ]
collect_files-IsPlaced storage (x ∷ resources) r (Memᴰ.head same) =
    let (files, others) = collect_files storage resources in
    rw same (collect_file-places storage x (file_of x) files others refl)
collect_files-IsPlaced storage (x ∷ resources) r (Memᴰ.tail m) =
    let (files, others) = collect_files storage resources in
    collect_file-keeps storage x (file_of x) r files others
      (collect_files-IsPlaced storage resources r m)

later :
    {storage : Storage} {resources : List BundledResource} {f : File} (x : BundledResource)
    → IsOwn storage resources f
    → IsOwn storage (x ∷ resources) f
later x h = record {
  resource = h.resource;
  path = h.path;
  size = h.size;
  among = Memᴰ.tail h.among;
  has_file = h.has_file;
  small = h.small;
  content = h.content;
  own = h.own;
}

added-IsOwn :
    (storage : Storage) (x : BundledResource) (resources : List BundledResource) (path : String)
    (size : ℕ) (o : Option String) (files : List File) (f : File)
    → file_of x ≡ some (path, size)
    → size ≤ storage.limit
    → storage.get_file path ≡ o
    → (Memᴰ f files → IsOwn storage (x ∷ resources) f)
    → Memᴰ f (add_file x o files)
    → IsOwn storage (x ∷ resources) f
added-IsOwn storage x resources path size none files f e small read before m = before m
added-IsOwn storage x resources path size (some c) files f e small read before (Memᴰ.head same) =
    record {
      resource = x;
      path = path;
      size = size;
      among = Memᴰ.head refl;
      has_file = e;
      small = small;
      content = read ∙ ap (λ g. some g.base64) (sym same);
      own = ap (λ g. g.resource_id) same;
    }
added-IsOwn storage x resources path size (some c) files f e small read before (Memᴰ.tail m) =
    before m

collected-IsOwn :
    (storage : Storage) (x : BundledResource) (resources : List BundledResource)
    (o : Option (String × ℕ)) (files : List File) (others : List ExcludedFile) (f : File)
    → file_of x ≡ o
    → (Memᴰ f files → IsOwn storage (x ∷ resources) f)
    → Memᴰ f (collect_file storage x o (files, others)).0
    → IsOwn storage (x ∷ resources) f
collected-IsOwn storage x resources none files others f e before m = before m
collected-IsOwn storage x resources (some (path, size)) files others f e before m =
    elim (Bool-cases (leb size storage.limit)) [
      | inl t ↦
          added-IsOwn storage x resources path size (storage.get_file path) files f e (ground arith)
            refl before (rw t at m)
      | inr t ↦ before (rw t at m)
    ]

pub collect_files-IsOwn :
    (storage : Storage) (resources : List BundledResource) (f : File)
    → Memᴰ f (collect_files storage resources).0
    → IsOwn storage resources f
unfolding collect_files
collect_files-IsOwn storage [] f m = elim m [ ]
collect_files-IsOwn storage (x ∷ resources) f m =
    collected-IsOwn storage x resources (file_of x) (collect_files storage resources).0
      (collect_files storage resources).1 f refl
      (λ n. later x (collect_files-IsOwn storage resources f n)) m

-- The bundle of a project answers for each of its resources: a file within the limit that the
-- storage can read is in the bundle, a larger one is listed as left out; and every file in the
-- bundle is a file of one of its resources, within the limit.
pub bundle_project-IsPlaced :
    (storage : Storage) (id : ℕ) (shelf : Shelf) {b : Bundle}
    → bundle_project storage id shelf ≡ some b
    → ((r : BundledResource) → Memᴰ r b.resources → IsPlaced storage r b.files b.excluded_files)
      × ((f : File) → Memᴰ f b.files → IsOwn storage b.resources f)
unfolding bundle_project
bundle_project-IsPlaced storage id shelf {b = b} h =
    elim (Bool-cases (any (nat_eq id) shelf.projects)) [
      | inl t ↦
          let same : bundle_of_project storage id shelf ≡ b = ground arith in
          let resources = filter (λ r. is_id r.project id) shelf.resources in
          rw (← same)
            (collect_files-IsPlaced storage resources, collect_files-IsOwn storage resources)
      | inr t ↦ absurd (ground arith)
    ]
