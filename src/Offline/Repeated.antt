-- ===== src/Offline/Repeated.antt =====
-- Two edits of one row in a batch of `applySync` of src/offline/offline.service.ts.
use documents_backend.Common.{
  ℕ, ◌<◌, ◌≤◌, String, true, false, ◌≡◌, refl, ap, ◌∙◌, none, some, List, [], ◌∷◌, find-holds, leb,
  nat_eq, nat_eq_iff, eq_iff, eq_string, arith, inl, inr, Bool-cases,
}
use documents_backend.Common.Dict.{lookup, lookup-adjust}
use documents_backend.Offline.Sync.{
  EntityRow, Tables, SyncChange, applied, conflict, Database, get_repo, installed, find_row, assign,
  save_row, write, answer, touched, apply_change, apply_sync,
}
use documents_backend.Offline.Kept.{write-repo}

module _ {V : Type 0} where
  find_row-save_row :
      (saved : EntityRow V) (rows : List (EntityRow V))
      → find_row saved.id (save_row saved rows) ≡ some saved
  unfolding save_row
  find_row-save_row saved [] = ground (arith, nat_eq_iff saved.id saved.id)
  find_row-save_row saved (x ∷ rows) = elim (Bool-cases (nat_eq x.id saved.id)) [
    | inl t ↦ rw t (ground (arith, nat_eq_iff saved.id saved.id))
    | inr t ↦ rw t (rw t (find_row-save_row saved rows))
  ]

  find_row-saved :
      (saved : EntityRow V) (rows : List (EntityRow V)) {id : ℕ}
      → saved.id ≡ id
      → find_row id (save_row saved rows) ≡ some saved
  find_row-saved saved rows same = rw (← same) (find_row-save_row saved rows)

  -- An edit of a row that is there.
  pub record Edits (type : String) (id : ℕ) (change : SyncChange V) : Type 0 where
    pub method : change.method ≡ "PATCH"
    pub type_same : change.entity_type ≡ type
    pub id_same : change.entity_id ≡ id
    pub own_id : change.payload.id ≡ none

module _ {V : Type 0} (db : Database V) where
  abbrev pub edited : SyncChange V → EntityRow V → EntityRow V
  edited change r = touched db (assign change.payload r)

  -- What an edit in time leaves.
  apply_change-applied :
      (type : String) (id : ℕ) (c : SyncChange V) (tables : Tables V) (rows : List (EntityRow V))
      (r : EntityRow V)
      → Edits type id c
      → get_repo type tables ≡ some rows
      → find_row id rows ≡ some r
      → r.updated_at ≤ c.updated_at
      → apply_change db c tables
        ≡ (answer c applied (some (edited c r)), write type (save_row (edited c r) rows) tables)
  unfolding apply_change
  apply_change-applied type id c tables rows r e there here early =
      let in_time : leb r.updated_at c.updated_at ≡ true = ground arith in
      rw (e.type_same, there, e.method, e.id_same, here, in_time) refl

  -- What an edit that comes too late leaves.
  apply_change-conflict :
      (type : String) (id : ℕ) (d : SyncChange V) (tables : Tables V) (rows : List (EntityRow V))
      (r : EntityRow V)
      → Edits type id d
      → get_repo type tables ≡ some rows
      → find_row id rows ≡ some r
      → d.updated_at < r.updated_at
      → apply_change db d tables ≡ (answer d conflict (some r), tables)
  unfolding apply_change
  apply_change-conflict type id d tables rows r e there here late =
      let too_late : leb r.updated_at d.updated_at ≡ false = ground arith in
      rw (e.type_same, there, e.method, e.id_same, here, too_late) refl

  get_repo-write :
      (type : String) (tables : Tables V) (rows new : List (EntityRow V))
      → get_repo type tables ≡ some rows
      → get_repo type (write type new tables) ≡ some new
  get_repo-write type tables rows new there =
      ap installed (lookup-adjust type type (λ _. some new) tables)
      ∙ rw ((eq_iff type type).1 refl) (write-repo (lookup type tables) rows new there)

  -- If two edits of one row come in one batch, the first in time, and the second made before the
  -- moment at which the first is saved, then the second is answered as a conflict with the first,
  -- and the row is left as the first one saved it.
  pub apply_sync-conflict :
      (type : String) (id : ℕ) (c d : SyncChange V) (tables : Tables V) (rows : List (EntityRow V))
      (r : EntityRow V)
      → Edits type id c
      → Edits type id d
      → get_repo type tables ≡ some rows
      → find_row id rows ≡ some r
      → r.updated_at ≤ c.updated_at
      → d.updated_at < (edited c r).updated_at
      → apply_sync db (c ∷ d ∷ []) tables ≡ (
        answer c applied (some (edited c r)) ∷ answer d conflict (some (edited c r)) ∷ [],
        write type (save_row (edited c r) rows) tables,
      )
  unfolding apply_sync
  apply_sync-conflict type id c d tables rows r first second there here early late =
      let saved = edited c r in
      let after = write type (save_row saved rows) tables in
      let number : saved.id ≡ id =
        rw first.own_id ((nat_eq_iff r.id id).0 (find-holds (λ x. nat_eq x.id id) rows here)) in
      let now_here : find_row id (save_row saved rows) ≡ some saved =
        find_row-saved saved rows number in
      rw
        (
          apply_change-applied type id c tables rows r first there here early,
          apply_change-conflict type id d after (save_row saved rows) saved second
              (get_repo-write type tables rows (save_row saved rows) there) now_here late,
        )
        refl
