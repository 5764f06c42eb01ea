-- ===== src/Dataset/Cleaned.antt =====
-- What `cleanRecordData` of src/dataset/dataset.service.ts leaves of accepted data.
use documents_backend.Common.{
  String, Bool, true, false, ◌≡◌, ◌≢◌, refl, ◌∙◌, Option, none, some, List, [], ◌∷◌, str_eq, eq_iff,
  find-holds, All-find, arith, inl, inr, Bool-cases,
}
use documents_backend.Common.Dict.{Dict, lookup}
use documents_backend.Dataset.Types.{
  Runtime, Value, null, bool, num, str, to_number, is_blank, FieldType, text, number, boolean, date,
  datetime, time, select, DatasetField,
}
use documents_backend.Dataset.Validation.{is_true_value, validate_record_data}
use documents_backend.Dataset.Cleaning.{
  field_of, clean_typed, clean_value, clean_cell, keep_cell, clean_record_data,
}
use documents_backend.Dataset.Conforms.{
  IsBoolean, exact, yes, no, Suits, Conforms, blank, filled, validate_record_data-Conforms,
}

module _ (R : Runtime) where
  -- What a column of a type keeps of a value: nothing of a blank one, a number or a Boolean of what
  -- stands for one, and any other value as it is.
  pub data Stored (field : DatasetField) : FieldType → Value R → Value R → Type 0 where
    empty :
        {t : FieldType} {given : Value R}
        → is_blank R (some given) ≡ true
        → Stored field t given null
    a_number :
        {given : Value R} {n : R.Num}
        → is_blank R (some given) ≡ false
        → to_number R given ≡ some n
        → Stored field number given (num n)
    a_boolean : (b : Bool) → Stored field boolean (bool b) (bool b)
    true_text : Stored field boolean (str "true") (bool true)
    false_text : Stored field boolean (str "false") (bool false)
    as_given :
        {t : FieldType} {value : Value R}
        → t ≢ number
        → t ≢ boolean
        → is_blank R (some value) ≡ false
        → Suits R field t value
        → Stored field t value value

  -- A cell after cleaning, if it was there and its key is in the schema.
  abbrev pub cleaned_cell : Option DatasetField → Option (Value R) → Option (Value R)
  cleaned_cell field none = none
  cleaned_cell field (some value) = clean_cell R field value

  cleaned_cell-no_field : (v : Option (Value R)) → cleaned_cell none v ≡ none
  cleaned_cell-no_field none = refl
  cleaned_cell-no_field (some value) = refl

  keep_cell-found :
      (field : Option DatasetField) (k : String) (v : Value R) (rest : Dict (Value R))
      (o : Option (Value R))
      → lookup k rest ≡ cleaned_cell field o
      → lookup k (keep_cell R k (clean_cell R field v) rest) ≡ clean_cell R field v
  unfolding lookup
  keep_cell-found none k v rest o h = h ∙ cleaned_cell-no_field o
  keep_cell-found (some field) k v rest o h = ground (arith, eq_iff k k)

  keep_cell-other :
      (key k : String) (cell : Option (Value R)) (rest : Dict (Value R))
      → str_eq key k ≡ false
      → lookup k (keep_cell R key cell rest) ≡ lookup k rest
  unfolding lookup
  keep_cell-other key k none rest h = refl
  keep_cell-other key k (some v) rest h = ground arith

  -- The cell under a key after cleaning.
  pub lookup-clean :
      (schema : List DatasetField) (k : String) (data_ : Dict (Value R))
      → lookup k (clean_record_data R schema data_)
        ≡ cleaned_cell (field_of schema k) (lookup k data_)
  unfolding clean_record_data lookup
  lookup-clean schema k [] = refl
  lookup-clean schema k ((key, value) ∷ entries) =
      let rest = lookup-clean schema k entries in
      let cleaned_rest = clean_record_data R schema entries in
      elim (Bool-cases (str_eq key k)) [
        | inl t ↦
            let same = (eq_iff key k).0 t in
            rw t (rw same (keep_cell-found (field_of schema k) k value cleaned_rest _ rest))
        | inr t ↦ rw t (keep_cell-other key k _ cleaned_rest t ∙ rest)
      ]

  -- What is stored of a value that suits its column.
  is_true_value-Stored :
      (field : DatasetField) (v : Value R)
      → IsBoolean R v
      → Stored field boolean v (bool (is_true_value R v))
  is_true_value-Stored field v (exact b) = a_boolean b
  is_true_value-Stored field v yes = rw ((eq_iff "true" "true").1 refl) true_text
  is_true_value-Stored field v no = false_text

  clean_typed-Stored :
      (field : DatasetField) (t : FieldType) (v : Value R)
      → is_blank R (some v) ≡ false
      → Suits R field t v
      → Stored field t v (clean_typed R t v)
  unfolding clean_typed
  clean_typed-Stored field number v h (n, e) = rw e (a_number h e)
  clean_typed-Stored field boolean v h s = is_true_value-Stored field v s
  clean_typed-Stored field text v h s = as_given (λ e. cc) (λ e. cc) h s
  clean_typed-Stored field date v h s = as_given (λ e. cc) (λ e. cc) h s
  clean_typed-Stored field datetime v h s = as_given (λ e. cc) (λ e. cc) h s
  clean_typed-Stored field time v h s = as_given (λ e. cc) (λ e. cc) h s
  clean_typed-Stored field select v h s = as_given (λ e. cc) (λ e. cc) h s

  Stored-cell :
      (field : Option DatasetField) (o : Option (Value R)) {v : Value R}
      → ((f : DatasetField) → field ≡ some f → Conforms R f o)
      → cleaned_cell field o ≡ some v
      → (f : DatasetField) × (given : Value R) × (field ≡ some f)
        × (o ≡ some given)
        × Stored f f.type given v
  unfolding clean_value
  Stored-cell none o {v} h e = absurd (cc (e, cleaned_cell-no_field o))
  Stored-cell (some f) none h e = cc
  Stored-cell (some f) (some w) {v} h e = elim (h f refl) [
    | blank free t ↦
        let same : null ≡ v = cc (rw t at e) in (f, w, refl, refl, rw (← same) (empty t))
    | filled t suits ↦
        let same : clean_typed R f.type w ≡ v = cc (rw t at e) in
        (f, w, refl, refl, rw (← same) (clean_typed-Stored f f.type w t suits))
  ]

  -- Every cell that `cleanRecordData` leaves of accepted data stands for a cell that was given,
  -- belongs to a column of the schema, and is null if the given one is blank, the number or the
  -- Boolean that the given one stands for in a column of that type, and the given one as it is in a
  -- column of another type.
  pub clean_record_data-Stored :
      (schema : List DatasetField) (data_ : Dict (Value R)) (k : String) {v : Value R}
      → validate_record_data R schema data_ ≡ []
      → lookup k (clean_record_data R schema data_) ≡ some v
      → (f : DatasetField) × (given : Value R) × (field_of schema k ≡ some f)
        × (lookup k data_ ≡ some given)
        × Stored f f.type given v
  clean_record_data-Stored schema data_ k {v} valid found =
      let all_conform = (validate_record_data-Conforms R schema data_).0 valid in
      let conforms : (f : DatasetField)
          → field_of schema k ≡ some f
          → Conforms R f (lookup k data_) =
        λ f e.
          let same = (eq_iff f.key k).0 (find-holds (λ g. str_eq g.key k) schema e) in
          rw (← same) (All-find (λ g. Conforms R g (lookup g.key data_)) _ schema all_conform e) in
      Stored-cell (field_of schema k) (lookup k data_) conforms
        (rw (lookup-clean schema k data_) at found)
