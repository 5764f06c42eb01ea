-- ===== src/Offline/Kept.antt =====
-- What `applySync` of src/offline/offline.service.ts keeps of rows that are newer than the changes.
use documents_backend.Common.{
  ℕ, ◌<◌, String, Bool, true, false, not, ◌&&◌, ◌≡◌, ◌≢◌, refl, sym, ap, filter, ◌∙◌, Option, none,
  some, List, [], ◌∷◌, All, find-holds, find-filter, leb, nat_eq, nat_eq_iff, str_eq, eq_iff,
  eq_string, arith, ◌⊎◌, inl, inr, Bool-cases, Option-cases,
}
use mathlib.Core.Option
use documents_backend.Common.Dict.{lookup, lookup-adjust}
use documents_backend.Offline.Sync.{
  EntityRow, Tables, SyncChange, Database, installed, get_repo, find_row, assign, save_row, write,
  touched, created_row, patch, post, is_of, cascades, is_deleted, delete_rows, delete, apply_in,
  apply_change, apply_sync,
}

module _ {V : Type 0} where
  -- The row of the number is in the table of the type.
  abbrev pub Holds : String → ℕ → EntityRow V → Tables V → Type 0
  Holds type id r tables =
      (rows : List (EntityRow V)) × (get_repo type tables ≡ some rows) × (find_row id rows ≡ some r)

  abbrev pub is_on : String → ℕ → SyncChange V → Bool
  is_on type id change = str_eq change.entity_type type && nat_eq change.entity_id id

  -- A change that must not touch the row: an edit that is older than the row, or one of another row;
  -- a new row; or the deletion of another row, which is not the resource that the row refers to. No
  -- payload names a row of its own accord.
  pub data Harmless (db : Database V) (type : String) (id : ℕ) (r : EntityRow V)
      (change : SyncChange V) : Type 0 where
    patched :
        change.method ≡ "PATCH"
        → change.payload.id ≡ none
        → (change.updated_at < r.updated_at) ⊎ (is_on type id change ≡ false)
        → Harmless db type id r change
    posted : change.method ≡ "POST" → change.payload.id ≡ none → Harmless db type id r change
    deleted :
        change.method ≡ "DELETE"
        → is_on type id change ≡ false
        → (change.entity_type ≡ "resource" → db.resource_of r ≢ some change.entity_id)
        → Harmless db type id r change

  find_row-save_other :
      (id : ℕ) (saved : EntityRow V) (rows : List (EntityRow V)) {r : EntityRow V}
      → nat_eq saved.id id ≡ false
      → find_row id rows ≡ some r
      → find_row id (save_row saved rows) ≡ some r
  unfolding save_row
  find_row-save_other id saved [] other h = cc
  find_row-save_other id saved (x ∷ rows) {r = r} other h =
      elim (Bool-cases (nat_eq x.id saved.id)) [
        | inl t ↦
            let same = (nat_eq_iff x.id saved.id).0 t in
            let not_here : nat_eq x.id id ≡ false = rw same other in ground arith
        | inr t ↦ elim (Bool-cases (nat_eq x.id id)) [
          | inl u ↦ ground arith
          | inr u ↦
              let rest = find_row-save_other id saved rows {r = r} other (ground arith) in
              ground (arith, rest)
        ]
      ]

  pub write-repo :
      (o : Option (Option (List (EntityRow V)))) (rows : List (EntityRow V))
      (new : List (EntityRow V))
      → installed o ≡ some rows
      → installed (Option.map (λ _. some new) o) ≡ some new
  write-repo none rows new h = cc
  write-repo (some o) rows new h = refl

  -- Rows that are written back with the row still among them.
  write-Holds :
      (type : String) (id : ℕ) (r : EntityRow V) (tables : Tables V) (at : String)
      (rows new : List (EntityRow V))
      → get_repo at tables ≡ some rows
      → (str_eq at type ≡ true → find_row id rows ≡ some r → find_row id new ≡ some r)
      → Holds type id r tables
      → Holds type id r (write at new tables)
  write-Holds type id r tables at rows new there kept (own, found, here) =
      elim (Bool-cases (str_eq at type)) [
        | inl t ↦
            let same = (eq_iff at type).0 t in
            let once : rows ≡ own = cc (there, found, same) in
            let looked = lookup-adjust at type (λ _. some new) tables in
            (
              new,
              ap installed looked ∙ rw t (write-repo (lookup type tables) own new found),
              kept t (rw once here),
            )
        | inr t ↦
            (own, ap installed (lookup-adjust at type (λ _. some new) tables) ∙ rw t found, here)
      ]

off_anyway : (b : Bool) → (b && false) ≡ false
off_anyway true = refl
off_anyway false = refl

is_of-off : (o : Option ℕ) (n : ℕ) → o ≢ some n → is_of o n ≡ false
is_of-off none n h = refl
is_of-off (some m) n h = elim (Bool-cases (nat_eq m n)) [
  | inl t ↦ let same = (nat_eq_iff m n).0 t in absurd (h (rw same refl))
  | inr t ↦ t
]

number_off :
    (a b : String) (m n k : ℕ)
    → nat_eq m k ≡ true
    → (str_eq b a && nat_eq n k) ≡ false
    → (str_eq a b && nat_eq m n) ≡ false
number_off a b m n k here off = elim (Bool-cases (str_eq a b)) [
  | inr t ↦ rw t refl
  | inl t ↦
      let same = (eq_iff a b).0 t in
      let back : str_eq b a ≡ true = (eq_iff b a).1 (sym same) in
      let apart : nat_eq n k ≡ false = rw back at off in
      rw t (ground (arith, nat_eq_iff m k, nat_eq_iff n k, nat_eq_iff m n))
]

module _ {V : Type 0} (db : Database V) (type : String) (id : ℕ) (r : EntityRow V) where
  -- An edit of another row, or one that comes too late, changes nothing of the row.
  patch-Holds :
      (change : SyncChange V) (x : EntityRow V) (rows : List (EntityRow V)) (tables : Tables V)
      → get_repo change.entity_type tables ≡ some rows
      → find_row change.entity_id rows ≡ some x
      → change.payload.id ≡ none
      → (change.updated_at < r.updated_at) ⊎ (is_on type id change ≡ false)
      → Holds type id r tables
      → Holds type id r (patch db change x rows tables).1
  patch-Holds change x rows tables there read own_id late (own, found, here) =
      elim (Bool-cases (is_on type id change)) [
        | inl on ↦
            let same_type = (eq_iff change.entity_type type).0 (ground arith) in
            let same_id = (nat_eq_iff change.entity_id id).0 (ground arith) in
            let once : x ≡ r = cc (there, found, same_type, same_id, read, here) in
            let older : change.updated_at < r.updated_at = elim late [
              | inl earlier ↦ earlier
              | inr off ↦ absurd (cc)
            ] in
            let refused : leb x.updated_at change.updated_at ≡ false = rw once (ground arith) in
            rw refused (own, found, here)
        | inr off ↦ elim (Bool-cases (leb x.updated_at change.updated_at)) [
          | inr u ↦ rw u (own, found, here)
          | inl u ↦
              let number =
                (nat_eq_iff x.id change.entity_id).0
                  (find-holds (λ y. nat_eq y.id change.entity_id) rows read) in
              rw u (
                write-Holds type id r tables change.entity_type rows _ there
                  (λ t.
                    find_row-save_other id (touched db (assign change.payload x)) rows
                      (rw (own_id, number) (ground arith)))
                  (own, found, here))
        ]
      ]

  numbered_apart :
      (rows : List (EntityRow V)) {n : ℕ}
      → ((others : List (EntityRow V)) → find_row (db.new_id others) others ≡ none)
      → n ≡ db.new_id rows
      → find_row id rows ≡ some r
      → nat_eq n id ≡ false
  numbered_apart rows {n} fresh number here = elim (Bool-cases (nat_eq n id)) [
    | inl u ↦
        let same = (nat_eq_iff n id).0 u in
        let own : find_row id rows ≡ none = rw (← same, number) (fresh rows) in
        absurd (cc (own, here))
    | inr u ↦ u
  ]

  is_deleted-other :
      (change : SyncChange V)
      → nat_eq r.id id ≡ true
      → is_on type id change ≡ false
      → (change.entity_type ≡ "resource" → db.resource_of r ≢ some change.entity_id)
      → is_deleted db change.entity_type change.entity_id type r ≡ false
  unfolding is_deleted
  is_deleted-other change here off apart =
      let own = number_off type change.entity_type r.id change.entity_id id here off in
      rw own (elim (Bool-cases (str_eq change.entity_type "resource")) [
        | inr t ↦ rw t refl
        | inl t ↦
            let other =
              is_of-off (db.resource_of r) change.entity_id
                (apart ((eq_iff change.entity_type "resource").0 t)) in
            rw (t, other) (off_anyway (cascades type))
      ])

  -- A table after a deletion.
  get_repo-delete_rows :
      (at : String) (n : ℕ) (tables : Tables V)
      → get_repo type (delete_rows db at n tables)
        ≡ Option.map (filter (λ x. not (is_deleted db at n type x))) (get_repo type tables)
  unfolding delete_rows lookup
  get_repo-delete_rows at n [] = refl
  get_repo-delete_rows at n ((name, table) ∷ tables) = elim (Bool-cases (str_eq name type)) [
    | inl t ↦ let same = (eq_iff name type).0 t in rw (t, same) refl
    | inr t ↦ rw t (get_repo-delete_rows at n tables)
  ]

  post-Holds :
      (change : SyncChange V) (rows : List (EntityRow V)) (tables : Tables V)
      → ((others : List (EntityRow V)) → find_row (db.new_id others) others ≡ none)
      → get_repo change.entity_type tables ≡ some rows
      → change.payload.id ≡ none
      → Holds type id r tables
      → Holds type id r (post db change rows tables).1
  post-Holds change rows tables fresh there own_id h =
      let saved = touched db (created_row db change.payload rows) in
      let number : saved.id ≡ db.new_id rows = rw own_id (rw (fresh rows) refl) in
      write-Holds type id r tables change.entity_type rows (save_row saved rows) there
        (λ t here. find_row-save_other id saved rows (numbered_apart rows fresh number here) here) h

  delete-Holds :
      (change : SyncChange V) (tables : Tables V)
      → is_on type id change ≡ false
      → (change.entity_type ≡ "resource" → db.resource_of r ≢ some change.entity_id)
      → Holds type id r tables
      → Holds type id r (delete db change tables).1
  delete-Holds change tables off apart (own, found, here) =
      elim (Bool-cases (db.refuses tables change.entity_type change.entity_id)) [
        | inl u ↦ rw u (own, found, here)
        | inr u ↦
            let mine = find-holds (λ x. nat_eq x.id id) own here in
            let stays = is_deleted-other change mine off apart in
            rw u (
              filter (λ x. not (is_deleted db change.entity_type change.entity_id type x)) own,
              get_repo-delete_rows change.entity_type change.entity_id tables ∙ rw found refl,
              find-filter (λ x. nat_eq x.id id)
                  (λ x. not (is_deleted db change.entity_type change.entity_id type x)) own here
                  (ap not stays),
            )
      ]

  apply_in-Holds :
      (change : SyncChange V) (o : Option (List (EntityRow V))) (tables : Tables V)
      → ((others : List (EntityRow V)) → find_row (db.new_id others) others ≡ none)
      → get_repo change.entity_type tables ≡ o
      → Harmless db type id r change
      → Holds type id r tables
      → Holds type id r (apply_in db change o tables).1
  apply_in-Holds change none tables fresh there harmless h = h
  apply_in-Holds change (some rows) tables fresh there (patched method own_id late) h =
      rw method (elim (Option-cases (find_row change.entity_id rows)) [
        | inl e ↦ rw e h
        | inr (x, e) ↦ rw e (patch-Holds change x rows tables there e own_id late h)
      ])
  apply_in-Holds change (some rows) tables fresh there (posted method own_id) h =
      rw method (post-Holds change rows tables fresh there own_id h)
  apply_in-Holds change (some rows) tables fresh there (deleted method off other) h =
      rw method (delete-Holds change tables off other h)

  -- A row survives a batch of changes in which every edit of it is older than the row, none deletes
  -- it or the resource that it refers to, and no payload names a row, if the database numbers new
  -- rows afresh.
  pub apply_sync-Holds :
      (changes : List (SyncChange V)) (tables : Tables V)
      → ((others : List (EntityRow V)) → find_row (db.new_id others) others ≡ none)
      → All (Harmless db type id r) changes
      → Holds type id r tables
      → Holds type id r (apply_sync db changes tables).1
  unfolding apply_sync apply_change
  apply_sync-Holds [] tables fresh harmless h = h
  apply_sync-Holds (change ∷ changes) tables fresh (first, rest) h =
      apply_sync-Holds changes (apply_change db change tables).1 fresh rest
        (apply_in-Holds change (get_repo change.entity_type tables) tables fresh refl first h)
