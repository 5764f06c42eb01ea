-- ===== src/Dataset/Safe.antt =====
-- A change of schema that `analyzeSchemaChange` of src/dataset/dataset.service.ts calls safe loses no
-- cell.
use mathlib.Core.List.{Memᴰ}
use mathlib.Core.Path.{subst}
use documents_backend.Common.{
  ℕ, String, Bool, true, false, not, ◌&&◌, ◌≡◌, refl, sym, ◌∙◌, ◌≢◌, Option, none, some, List, [],
  ◌∷◌, filter, length, nat_eq, str_eq, eq_iff, eq_iff, if◌then◌else◌, arith, inl, inr, Bool-cases,
  ok,
}
use documents_backend.Common.Dict.{lookup}
use documents_backend.Dataset.Types.{
  Runtime, Value, bool, num, is_blank, FieldType, text, number, boolean, date, datetime, time,
  select, DatasetField, DatasetRecord,
}
use documents_backend.Dataset.Cleaning.{field_of, clean_typed, clean_value, clean_record_data}
use documents_backend.Dataset.Cleaned.{lookup-clean}
use documents_backend.Dataset.Store.{Dataset, Store, find_dataset}
use documents_backend.Dataset.Records.{is_nil}
use documents_backend.Dataset.SchemaChange.{
  type_eq, type_eq_iff, eq_field_type, RemovedField, TypeChange, SchemaReport, has_key, map_get,
  of_dataset, has_value, removed_fields, changed, type_changes, report_on, analyze_schema_change,
}

module _ (R : Runtime) where
  filter-nonempty :
      (p : DatasetRecord R → Bool) (records : List (DatasetRecord R)) (r : DatasetRecord R)
      → Memᴰ r records
      → p r ≡ true
      → length (filter p records) ≢ 0
  filter-nonempty p [] r m h e = elim m [ ]
  filter-nonempty p (x ∷ records) r (Memᴰ.head same) h e =
      let here : p x ≡ true = rw (← same) h in ground arith
  filter-nonempty p (x ∷ records) r (Memᴰ.tail m) h e = elim (Bool-cases (p x)) [
    | inl t ↦ ground arith
    | inr t ↦ filter-nonempty p records r m h (ground arith)
  ]

  filter-mem :
      (p : DatasetRecord R → Bool) (records : List (DatasetRecord R)) (r : DatasetRecord R)
      → Memᴰ r records
      → p r ≡ true
      → Memᴰ r (filter p records)
  filter-mem p [] r m h = elim m [ ]
  filter-mem p (x ∷ records) r (Memᴰ.head same) h =
      let here : p x ≡ true = rw (← same) h in rw here (Memᴰ.head same)
  filter-mem p (x ∷ records) r (Memᴰ.tail m) h = elim (Bool-cases (p x)) [
    | inl t ↦ rw t (Memᴰ.tail (filter-mem p records r m h))
    | inr t ↦ rw t (filter-mem p records r m h)
  ]

  -- If nothing is reported as removed, a column with values has its key in the new schema.
  removed_fields-has_key :
      (new old : List DatasetField) (records : List (DatasetRecord R)) (f : DatasetField)
      (r : DatasetRecord R)
      → removed_fields R new old records ≡ []
      → Memᴰ f old
      → Memᴰ r records
      → has_value R f.key r ≡ true
      → has_key f.key new ≡ true
  unfolding removed_fields
  removed_fields-has_key new [] records f r h m there v = elim m [ ]
  removed_fields-has_key new (g ∷ old) records f r h (Memᴰ.head same) there v =
      let some_left = filter-nonempty (has_value R g.key) records r there (rw (← same) v) in
      let here : has_key g.key new ≡ true = ground (arith, some_left) in rw same here
  removed_fields-has_key new (g ∷ old) records f r h (Memᴰ.tail m) there v =
      let rest : removed_fields R new old records ≡ [] = ground arith in
      removed_fields-has_key new old records f r rest m there v

  changed-nil :
      (f : DatasetField) (m : Option DatasetField) (records : List (DatasetRecord R))
      (rest : List TypeChange)
      → changed R f m records rest ≡ []
      → (rest ≡ []) × ((o : DatasetField) → m ≡ some o → f.type ≡ o.type)
  changed-nil f none records rest h = (h, λ o e. cc)
  changed-nil f (some old) records rest h =
      let (left, same) = settled (type_eq old.type f.type) _ rest h in
      (left, λ o e. let at : old ≡ o = cc in rw (← at) (sym ((type_eq_iff old.type f.type).0 same)))
    where
      settled :
          (b : Bool) (x : TypeChange) (rest : List TypeChange)
          → (if not b then x ∷ rest else rest) ≡ []
          → (rest ≡ []) × (b ≡ true)
      settled true x rest h = (h, refl)
      settled false x rest h = cc

  -- If no change of type is reported, a column of the new schema has its old type.
  type_changes-same :
      (new old : List DatasetField) (records : List (DatasetRecord R)) (g o : DatasetField)
      → type_changes R new old records ≡ []
      → Memᴰ g new
      → map_get g.key old ≡ some o
      → g.type ≡ o.type
  unfolding type_changes
  type_changes-same [] old records g o h m e = elim m [ ]
  type_changes-same (f ∷ new) old records g o h (Memᴰ.head same) e =
      let (_, settled) =
        changed-nil f (map_get f.key old) records (type_changes R new old records) h in
      rw same (settled o (rw (← same) e))
  type_changes-same (f ∷ new) old records g o h (Memᴰ.tail m) e =
      let (rest, _) =
        changed-nil f (map_get f.key old) records (type_changes R new old records) h in
      type_changes-same new old records g o rest m e

  -- A key that a schema has finds a column of it.
  has_key-field :
      (key : String) (schema : List DatasetField)
      → has_key key schema ≡ true
      → (g : DatasetField) × (field_of schema key ≡ some g) × Memᴰ g schema × (g.key ≡ key)
  has_key-field key [] h = cc
  has_key-field key (f ∷ schema) h = elim (Bool-cases (str_eq f.key key)) [
    | inl t ↦ (f, ground arith, Memᴰ.head refl, (eq_iff f.key key).0 t)
    | inr t ↦
        let (g, there, m, same) = has_key-field key schema (ground arith) in
        (g, ground (arith, there), Memᴰ.tail m, same)
  ]

  both_nil :
      (gone : List RemovedField) (changes : List TypeChange)
      → (is_nil gone && is_nil changes) ≡ true
      → (gone ≡ []) × (changes ≡ [])
  both_nil [] [] h = (refl, refl)
  both_nil [] (c ∷ changes) h = cc
  both_nil (g ∷ gone) changes h = cc

  -- What a column of the type holds of clean data: a number or a Boolean in a column of that type.
  abbrev pub OfKind : FieldType → Value R → Type 0
  OfKind number v = (n : R.Num) × (v ≡ num n)
  OfKind boolean v = (b : Bool) × (v ≡ bool b)
  OfKind _ v = Unit

  clean_typed-kept : (t : FieldType) (v : Value R) → OfKind t v → clean_typed R t v ≡ v
  unfolding clean_typed
  clean_typed-kept number v (n, e) = rw e refl
  clean_typed-kept boolean v (b, e) = rw e refl
  clean_typed-kept text v k = refl
  clean_typed-kept date v k = refl
  clean_typed-kept datetime v k = refl
  clean_typed-kept time v k = refl
  clean_typed-kept select v k = refl

  has_value-blank :
      (key : String) (r : DatasetRecord R) (v : Value R)
      → lookup key r.data_ ≡ some v
      → has_value R key r ≡ true
      → is_blank R (some v) ≡ false
  has_value-blank key r v cell h = let seen = rw cell at h in ground arith

  clean_value-kept :
      (f : DatasetField) (v : Value R)
      → is_blank R (some v) ≡ false
      → OfKind f.type v
      → clean_value R f v ≡ v
  unfolding clean_value
  clean_value-kept f v h kind = rw h (clean_typed-kept f.type v kind)

  analyze-report :
      (id : ℕ) (new : List DatasetField) (s : Store R) (dataset : Dataset)
      → find_dataset id s ≡ some dataset
      → analyze_schema_change R id new s
        ≡ ok (report_on R dataset.schema new (of_dataset R id s.records))
  unfolding analyze_schema_change
  analyze-report id new s dataset there = rw there refl

  -- If a change is called safe, a value that a record of the dataset has in a column, and that is a
  -- number or a Boolean if the old schema has a column of that type under the key, is left as it is
  -- when the record is cleaned with the new schema, and the column that then holds it has the type
  -- that the old schema has under its key.
  pub analyze_schema_change-safe :
      (id : ℕ) (new : List DatasetField) (s : Store R) {report : SchemaReport} (dataset : Dataset)
      (f o : DatasetField) (r : DatasetRecord R) (v : Value R)
      → analyze_schema_change R id new s ≡ ok report
      → report.safe ≡ true
      → find_dataset id s ≡ some dataset
      → Memᴰ f dataset.schema
      → map_get f.key dataset.schema ≡ some o
      → Memᴰ r s.records
      → nat_eq r.dataset id ≡ true
      → has_value R f.key r ≡ true
      → lookup f.key r.data_ ≡ some v
      → OfKind o.type v
      → (g : DatasetField) × (field_of new f.key ≡ some g)
        × (g.type ≡ o.type)
        × (lookup f.key (clean_record_data R new r.data_) ≡ some v)
  analyze_schema_change-safe id new s {report} dataset f o r v e safe there column old row own value
        cell kind =
      let records = of_dataset R id s.records in
      let same : report_on R dataset.schema new records ≡ report =
        cc (analyze-report id new s dataset there, e) in
      let (none_gone, none_changed) =
        both_nil (removed_fields R new dataset.schema records)
          (type_changes R new dataset.schema records) (cc (same, safe)) in
      let kept = filter-mem (λ x. nat_eq x.dataset id) s.records r row own in
      let key = removed_fields-has_key new dataset.schema records f r none_gone column kept value in
      let (g, finds, m, same_key) = has_key-field f.key new key in
      let type =
        type_changes-same new dataset.schema records g o none_changed m (rw same_key old) in
      let of_kind : OfKind g.type v = subst (λ t. OfKind t v) (sym type) kind in
      let left = clean_value-kept g v (has_value-blank f.key r v cell value) of_kind in
      (g, finds, type, lookup-clean R new f.key r.data_ ∙ rw (finds, cell, left) refl)
