-- ===== src/Dataset/Linked/Tables.antt =====
-- Every other operation of src/dataset/dataset.service.ts keeps the links sound.
use documents_backend.Common.{
  ℕ, String, true, not, ◌&&◌, ◌≡◌, refl, Option, none, some, List, [], ◌∷◌, ◌++◌, find, suc, ◌||◌,
  get_or, All-append, nat_eq, nat_eq_iff, if◌then◌else◌, arith, ok, >>=-eq-ok, throw_if-eq-ok,
}
use documents_backend.Common.Dict.{Dict}
use documents_backend.Dataset.Types.{Runtime, Value, DatasetField, DatasetRecord}
use documents_backend.Dataset.Store.{
  Dataset, Relation, Link, Store, manual, save_dataset, find_dataset, find_record, find_relation,
}
use documents_backend.Dataset.Records.{found-eq-ok, sort_rows, import_validated_records}
use documents_backend.Dataset.Source.{
  CreateDataset, UpdateDataset, create_dataset, normalize_source_config, validate_source_config,
  names_source, assigned, resourced, update_dataset, remove_dataset, create_from_csv,
}
use documents_backend.Dataset.Relations.{
  CreateRelation, create_relation, remove_relation, belongs, is_linked, link_records,
  unlink_records,
}
use documents_backend.Dataset.Linked.Records.{insert_records-IsLinked}
use documents_backend.Dataset.Linked.{
  Sound, IsLinked, IsLinked-Kept, delete_where-IsLinked, refl-Kept, Steady-append,
}

module _ {R : Runtime} where
  pub create_dataset-IsLinked :
      (dto : CreateDataset) (s : Store R) {d : Dataset} {t : Store R}
      → create_dataset R dto s ≡ ok (d, t)
      → IsLinked s
      → IsLinked t
  unfolding create_dataset
  create_dataset-IsLinked dto s {d} {t} e h =
      let (_, _, e₁) =
        >>=-eq-ok
          (validate_source_config (get_or dto.source_mode manual)
            (normalize_source_config (get_or dto.source_mode manual) dto.source_config)
            dto.project_id)
          _ e in
      let same : record s { datasets = s.datasets ++ d ∷ []; next = suc s.next } ≡ t =
        ground arith in
      rw (← same) h

  pub update_dataset-IsLinked :
      (id : ℕ) (dto : UpdateDataset) (s : Store R) {d : Dataset} {t : Store R}
      → update_dataset R id dto s ≡ ok (d, t)
      → IsLinked s
      → IsLinked t
  unfolding update_dataset
  update_dataset-IsLinked id dto s {t} e h =
      let (dataset, _, e₁) = found-eq-ok _ (find_dataset id s) _ e in
      let (saved, _, e₂) =
        >>=-eq-ok
          (if names_source dto
            then resourced dto (assigned dto dataset)
            else ok (assigned dto dataset))
          _ e₁ in
      let same : record s { datasets = save_dataset saved s.datasets } ≡ t = cc in rw (← same) h

  pub remove_dataset-IsLinked :
      (id : ℕ) (s : Store R) {t : Store R} → remove_dataset R id s ≡ ok t → IsLinked s → IsLinked t
  unfolding remove_dataset
  remove_dataset-IsLinked id s {t} e h =
      let (_, _, e₁) = found-eq-ok _ (find_dataset id s) _ e in
      let kept =
        delete_where-IsLinked (λ r. not (nat_eq r.dataset id))
          (λ r. not (nat_eq r.source_dataset id || nat_eq r.target_dataset id)) (λ _. true) s h in
      ground (arith, kept)

  pub create_from_csv-IsLinked :
      (name : String) (schema : List DatasetField) (rows : List (Dict (Value R)))
      (project : Option ℕ) (s : Store R)
      → IsLinked s
      → IsLinked (create_from_csv R name schema rows project s).1
  unfolding create_from_csv import_validated_records
  create_from_csv-IsLinked name schema rows project s h =
      insert_records-IsLinked s.next (sort_rows R schema 0 rows).0 _ h

  pub create_relation-IsLinked :
      (dto : CreateRelation) (s : Store R) {r : Relation} {t : Store R}
      → create_relation R dto s ≡ ok (r, t)
      → IsLinked s
      → IsLinked t
  unfolding create_relation
  create_relation-IsLinked dto s {r} {t} e h =
      let (_, _, e₁) = found-eq-ok _ (find_dataset dto.source_dataset_id s) _ e in
      let (_, _, e₂) = found-eq-ok _ (find_dataset dto.target_dataset_id s) _ e₁ in
      let same : record s { relations = s.relations ++ r ∷ []; next = suc s.next } ≡ t =
        ground arith in
      rw (← same) (
        IsLinked-Kept s (record s { relations = s.relations ++ r ∷ []; next = suc s.next })
          (refl-Kept s.records) (Steady-append s.relations _) refl h)

  pub remove_relation-IsLinked :
      (id : ℕ) (s : Store R) {t : Store R} → remove_relation R id s ≡ ok t → IsLinked s → IsLinked t
  unfolding remove_relation
  remove_relation-IsLinked id s {t} e h =
      let (_, _, e₁) = found-eq-ok _ (find_relation id s.relations) _ e in
      let kept = delete_where-IsLinked (λ _. true) (λ r. not (nat_eq r.id id)) (λ _. true) s h in
      ground (arith, kept)

  pub unlink_records-IsLinked :
      (id link : ℕ) (s : Store R) {t : Store R}
      → unlink_records R id link s ≡ ok t
      → IsLinked s
      → IsLinked t
  unfolding unlink_records
  unlink_records-IsLinked id link s {t} e h =
      let (_, _, e₁) =
        found-eq-ok _ (find (λ l. nat_eq l.id link && nat_eq l.relation id) s.links) _ e in
      let kept = delete_where-IsLinked (λ _. true) (λ _. true) (λ l. not (nat_eq l.id link)) s h in
      ground (arith, kept)

  belongs-found :
      (o : Option (DatasetRecord R)) (d : ℕ)
      → belongs R o d ≡ true
      → (r : DatasetRecord R) × (o ≡ some r) × (r.dataset ≡ d)
  belongs-found none d h = cc
  belongs-found (some r) d h = (r, refl, (nat_eq_iff r.dataset d).0 h)

  pub link_records-IsLinked :
      (id source target : ℕ) (s : Store R) {l : Link} {t : Store R}
      → link_records R id source target s ≡ ok (l, t)
      → IsLinked s
      → IsLinked t
  unfolding link_records
  link_records-IsLinked id source target s {l} {t} e h =
      let (relation, there, e₁) = found-eq-ok _ (find_relation id s.relations) _ e in
      let (left, e₂) =
        throw_if-eq-ok (not (belongs R (find_record source s.records) relation.source_dataset)) _ _
          e₁ in
      let (right, e₃) =
        throw_if-eq-ok (not (belongs R (find_record target s.records) relation.target_dataset)) _ _
          e₂ in
      let (_, e₄) = throw_if-eq-ok (is_linked R id source target s.links) _ _ e₃ in
      let (a, a_there, a_fits) =
        belongs-found (find_record source s.records) relation.source_dataset (ground arith) in
      let (b, b_there, b_fits) =
        belongs-found (find_record target s.records) relation.target_dataset (ground arith) in
      let sound : Sound s.records s.relations l = record {
        relation = relation;
        relation_there = ground (arith, there);
        source = a;
        source_there = ground (arith, a_there);
        source_fits = a_fits;
        target = b;
        target_there = ground (arith, b_there);
        target_fits = b_fits;
      } in
      let same : record s { links = s.links ++ l ∷ []; next = suc s.next } ≡ t = ground arith in
      rw (← same) (All-append (Sound s.records s.relations) s.links (l ∷ []) h (sound, tt))
