-- ===== src/Offline/Sync.antt =====
-- `applySync` of src/offline/offline.service.ts. A row is its number, the time of its last change and
-- its other columns, whose values are of a type `V`. What the database decides is the parameter
-- `Database`. A save that it refuses ends the request, and is left out.
use documents_backend.Common.{
  ℕ, String, Bool, false, not, Option, none, some, List, [], ◌∷◌, filter, find, leb, nat_eq, get_or,
  if◌then◌else◌, ◌&&◌, ◌||◌, ◌==◌, eq_string,
}
use mathlib.Core.Option
use documents_backend.Common.Dict.{Dict, lookup, insert, adjust}

pub record EntityRow (V : Type 0) : Type 0 where
  pub id : ℕ
  pub updated_at : ℕ
  pub fields : Dict V

-- The tables by the name of their entity. One that is not installed is there without rows: `null`.
abbrev pub Tables : Type 0 → Type 0
Tables V = Dict (Option (List (EntityRow V)))

-- The members of a payload that are columns; others are not saved, and are left out.
pub record Payload (V : Type 0) : Type 0 where
  pub id : Option ℕ
  pub updated_at : Option ℕ
  pub fields : Dict V

pub record SyncChange (V : Type 0) : Type 0 where
  pub entity_type : String
  pub entity_id : ℕ
  pub method : String
  pub payload : Payload V
  pub updated_at : ℕ

pub data SyncStatus : Type 0 where
  applied conflict error : SyncStatus

pub record SyncResult (V : Type 0) : Type 0 where
  pub entity_type : String
  pub entity_id : ℕ
  pub status : SyncStatus
  pub server_data : Option (EntityRow V)

pub record Database (V : Type 0) : Type 0 where
  -- The time of change that a row gets when it is saved (`@UpdateDateColumn`).
  pub touch : EntityRow V → ℕ
  -- The number of a new row.
  pub new_id : List (EntityRow V) → ℕ
  -- The resource that a row refers to, in its column `resourceId`.
  pub resource_of : EntityRow V → Option ℕ
  -- The deletion of a row is refused, for the sake of the rows that refer to it.
  pub refuses : Tables V → String → ℕ → Bool

-- The tables whose rows go with the resource that they refer to (`ON DELETE CASCADE`). The other
-- keys between these tables refuse the deletion.
abbrev pub cascades : String → Bool
cascades name = name == "doc" || (name == "mark" || name == "comment")

abbrev pub is_of : Option ℕ → ℕ → Bool
is_of none id = false
is_of (some n) id = nat_eq n id

module _ {V : Type 0} where
  abbrev pub installed : Option (Option (List (EntityRow V))) → Option (List (EntityRow V))
  installed none = none
  installed (some rows) = rows

  abbrev pub get_repo : String → Tables V → Option (List (EntityRow V))
  get_repo entity_type tables = installed (lookup entity_type tables)

  abbrev pub find_row : ℕ → List (EntityRow V) → Option (EntityRow V)
  find_row id rows = find (λ r. nat_eq r.id id) rows

  -- The columns of an object written over those of another.
  unfoldable pub assign_fields : Dict V → Dict V → Dict V
  assign_fields [] fields = fields
  assign_fields ((k, v) ∷ more) fields = assign_fields more (insert k v fields)

  -- `Object.assign(entity, payload)`.
  abbrev pub assign : Payload V → EntityRow V → EntityRow V
  assign payload r = record {
    id = get_or payload.id r.id;
    updated_at = get_or payload.updated_at r.updated_at;
    fields = assign_fields payload.fields r.fields;
  }

  -- `repo.save` of a row: it takes the place of the row with its number, or is new.
  unfoldable pub save_row : EntityRow V → List (EntityRow V) → List (EntityRow V)
  save_row r [] = r ∷ []
  save_row r (x ∷ rows) = if nat_eq x.id r.id then r ∷ rows else x ∷ save_row r rows

  abbrev pub write : String → List (EntityRow V) → Tables V → Tables V
  write entity_type rows tables = adjust entity_type (λ _. some rows) tables

  abbrev pub answer : SyncChange V → SyncStatus → Option (EntityRow V) → SyncResult V
  answer change status data_ = record {
    entity_type = change.entity_type;
    entity_id = change.entity_id;
    status = status;
    server_data = data_;
  }

module _ {V : Type 0} (db : Database V) where
  abbrev pub touched : EntityRow V → EntityRow V
  touched r = record r { updated_at = db.touch r }

  -- What a POST saves: the row of the number that its payload names, or a new one.
  abbrev pub created_row : Payload V → List (EntityRow V) → EntityRow V
  created_row payload rows =
      let id = get_or payload.id (db.new_id rows) in
      assign payload (get_or (find_row id rows) (record { id = id; updated_at = 0; fields = [] }))

  abbrev pub patch :
      SyncChange V → EntityRow V → List (EntityRow V) → Tables V → SyncResult V × Tables V
  patch change r rows tables =
      let saved = touched (assign change.payload r) in
      if leb r.updated_at change.updated_at
      then (
        answer change applied (some saved),
        write change.entity_type (save_row saved rows) tables,
      )
      else (answer change conflict (some r), tables)

  abbrev pub patch_found :
      SyncChange V → Option (EntityRow V) → List (EntityRow V) → Tables V → SyncResult V × Tables V
  patch_found change none rows tables = (answer change error none, tables)
  patch_found change (some r) rows tables = patch change r rows tables

  abbrev pub post : SyncChange V → List (EntityRow V) → Tables V → SyncResult V × Tables V
  post change rows tables =
      let saved = touched (created_row change.payload rows) in
      (
        record (answer change applied (some saved)) { entity_id = saved.id },
        write change.entity_type (save_row saved rows) tables,
      )

  -- A row of the table goes when the row of the type is deleted: it is that row, or refers to it.
  unfoldable pub is_deleted : String → ℕ → String → EntityRow V → Bool
  is_deleted type id name r =
      (name == type && nat_eq r.id id)
      || (type == "resource" && (cascades name && is_of (db.resource_of r) id))

  -- `repo.delete(id)`, and what the database deletes with it.
  unfoldable pub delete_rows : String → ℕ → Tables V → Tables V
  delete_rows type id [] = []
  delete_rows type id ((name, table) ∷ tables) =
      (name, Option.map (filter (λ r. not (is_deleted type id name r))) table)
      ∷ delete_rows type id tables

  abbrev pub delete : SyncChange V → Tables V → SyncResult V × Tables V
  delete change tables =
      if db.refuses tables change.entity_type change.entity_id
      then (answer change error none, tables)
      else (answer change applied none, delete_rows change.entity_type change.entity_id tables)

  abbrev pub apply_in :
      SyncChange V → Option (List (EntityRow V)) → Tables V → SyncResult V × Tables V
  apply_in change none tables = (answer change error none, tables)
  apply_in change (some rows) tables =
      if change.method == "DELETE"
      then delete change tables
      else if change.method == "PATCH"
      then patch_found change (find_row change.entity_id rows) rows tables
      else if change.method == "POST"
      then post change rows tables
      else (answer change error none, tables)

  -- One round of the loop.
  unfoldable pub apply_change : SyncChange V → Tables V → SyncResult V × Tables V
  apply_change change tables = apply_in change (get_repo change.entity_type tables) tables

  unfoldable pub apply_sync : List (SyncChange V) → Tables V → List (SyncResult V) × Tables V
  apply_sync [] tables = ([], tables)
  apply_sync (change ∷ changes) tables =
      let (result, after) = apply_change change tables in
      let (results, final) = apply_sync changes after in (result ∷ results, final)
