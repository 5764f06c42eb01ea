-- ===== src/Dataset/Conforms.antt =====
-- What `validateRecordData` of src/dataset/dataset.service.ts accepts, described without the code.
use mathlib.Core.List.{Memᴰ}
use documents_backend.Common.{
  sym, String, Bool, true, false, ◌≡◌, refl, ◌↔◌, Option, none, some, List, [], ◌∷◌, ◌++◌, All,
  str_eq, eq_iff, is_some, arith, inl, inr, Bool-cases,
}
use documents_backend.Common.Dict.{Dict, lookup}
use documents_backend.Dataset.Types.{
  Runtime, Value, null, nan, bool, num, str, other, to_number, to_text, is_blank, FieldType, text,
  number, boolean, date, datetime, time, select, DatasetField,
}
use documents_backend.Dataset.Validation.{
  is_time, includes, is_boolean_value, is_option, type_errors, field_errors, validate_record_data,
}

-- The text is one of the options, if there are any.
abbrev pub Allowed : String → Option (List String) → Type 0
Allowed s none = Unit
Allowed s (some options) = Memᴰ s options

pub data IsBoolean (R : Runtime) : Value R → Type 0 where
  exact : (b : Bool) → IsBoolean R (bool b)
  yes : IsBoolean R (str "true")
  no : IsBoolean R (str "false")

module _ (R : Runtime) where
  -- The value suits a column of the type.
  abbrev pub Suits : DatasetField → FieldType → Value R → Type 0
  Suits field number value = (n : R.Num) × (to_number R value ≡ some n)
  Suits field boolean value = IsBoolean R value
  Suits field date value = R.is_date (to_text R value) ≡ true
  Suits field datetime value = R.is_date (to_text R value) ≡ true
  Suits field time value = is_time (to_text R value) ≡ true
  Suits field select value = Allowed (to_text R value) field.options
  Suits field text value = Unit

  -- A blank cell of a column that is not required, or a value that suits the column.
  pub data Conforms (field : DatasetField) : Option (Value R) → Type 0 where
    blank : {v : Option (Value R)} → field.required ≡ false → is_blank R v ≡ true → Conforms field v
    filled :
        {value : Value R}
        → is_blank R (some value) ≡ false
        → Suits field field.type value
        → Conforms field (some value)

includes-mem : (options : List String) (s : String) → includes options s ≡ true → Memᴰ s options
includes-mem [] s h = cc
includes-mem (o ∷ options) s h = elim (Bool-cases (str_eq o s)) [
  | inl t ↦ let same = (eq_iff o s).0 t in Memᴰ.head (sym same)
  | inr t ↦ Memᴰ.tail (includes-mem options s (ground arith))
]

mem-includes : (options : List String) (s : String) → Memᴰ s options → includes options s ≡ true
mem-includes [] s h = elim h [ ]
mem-includes (o ∷ options) s (Memᴰ.head same) = ground (arith, eq_iff o s, sym same)
mem-includes (o ∷ options) s (Memᴰ.tail h) = ground (arith, mem-includes options s h)

module _ (R : Runtime) where
  is_boolean_value-IsBoolean : (v : Value R) → is_boolean_value R v ≡ true → IsBoolean R v
  is_boolean_value-IsBoolean (bool b) h = exact b
  is_boolean_value-IsBoolean (str s) h = elim (Bool-cases (str_eq s "true")) [
    | inl t ↦ let same = (eq_iff s "true").0 t in rw same yes
    | inr t ↦ let same = (eq_iff s "false").0 (ground arith) in rw same no
  ]
  is_boolean_value-IsBoolean null h = cc
  is_boolean_value-IsBoolean nan h = cc
  is_boolean_value-IsBoolean (num n) h = cc
  is_boolean_value-IsBoolean (other j) h = cc

  IsBoolean-is_boolean_value : (v : Value R) → IsBoolean R v → is_boolean_value R v ≡ true
  IsBoolean-is_boolean_value v (exact b) = refl
  IsBoolean-is_boolean_value v yes = ground (arith, eq_iff "true" "true")
  IsBoolean-is_boolean_value v no = ground (arith, eq_iff "false" "false")

  is_option-Allowed :
      (options : Option (List String)) (s : String)
      → is_option R options s ≡ true
      → Allowed s options
  is_option-Allowed none s h = tt
  is_option-Allowed (some options) s h = includes-mem options s h

  Allowed-is_option :
      (options : Option (List String)) (s : String)
      → Allowed s options
      → is_option R options s ≡ true
  Allowed-is_option none s h = refl
  Allowed-is_option (some options) s h = mem-includes options s h

  is_some-value : {A : Type 0} (o : Option A) → is_some o ≡ true → (a : A) × (o ≡ some a)
  is_some-value none h = cc
  is_some-value (some a) h = (a, refl)

  type_errors-Suits :
      (field : DatasetField) (t : FieldType) (v : Value R)
      → type_errors R field t v ≡ []
      → Suits R field t v
  unfolding type_errors
  type_errors-Suits field text v h = tt
  type_errors-Suits field number v h = is_some-value (to_number R v) (ground arith)
  type_errors-Suits field boolean v h = is_boolean_value-IsBoolean v (ground arith)
  type_errors-Suits field date v h = ground arith
  type_errors-Suits field datetime v h = ground arith
  type_errors-Suits field time v h = ground arith
  type_errors-Suits field select v h = is_option-Allowed field.options (to_text R v) (ground arith)

  Suits-type_errors :
      (field : DatasetField) (t : FieldType) (v : Value R)
      → Suits R field t v
      → type_errors R field t v ≡ []
  unfolding type_errors
  Suits-type_errors field text v h = refl
  Suits-type_errors field number v (n, h) = ground arith
  Suits-type_errors field boolean v h = rw (IsBoolean-is_boolean_value v h) refl
  Suits-type_errors field date v h = ground arith
  Suits-type_errors field datetime v h = ground arith
  Suits-type_errors field time v h = ground arith
  Suits-type_errors field select v h = rw (Allowed-is_option field.options (to_text R v) h) refl

  field_errors-Conforms :
      (field : DatasetField) (v : Option (Value R))
      → (field_errors R field v ≡ []) ↔ Conforms R field v
  unfolding field_errors
  field_errors-Conforms field v = (to v, from v)
    where
      to : (v : Option (Value R)) → field_errors R field v ≡ [] → Conforms R field v
      to none h = blank (ground arith) refl
      to (some value) h = elim (Bool-cases (is_blank R (some value))) [
        | inl t ↦ blank (ground arith) t
        | inr t ↦ filled t (type_errors-Suits field field.type value (ground arith))
      ]

      from : (v : Option (Value R)) → Conforms R field v → field_errors R field v ≡ []
      from v (blank free empty) = ground arith
      from (some value) (filled there suits) =
          let none_left = Suits-type_errors field field.type value suits in ground arith

  append-nil_iff : {A : Type 0} (xs ys : List A) → (xs ++ ys ≡ []) ↔ ((xs ≡ []) × (ys ≡ []))
  append-nil_iff [] ys = (λ h. (refl, h), λ h. h.1)
  append-nil_iff (x ∷ xs) ys = ((λ h. cc), λ h. cc (h.0))

  -- No error is reported exactly if every column of the schema has a conforming cell.
  pub validate_record_data-Conforms :
      (schema : List DatasetField) (data_ : Dict (Value R))
      → (validate_record_data R schema data_ ≡ [])
        ↔ All (λ field. Conforms R field (lookup field.key data_)) schema
  unfolding validate_record_data
  validate_record_data-Conforms [] data_ = (λ _. tt, λ _. refl)
  validate_record_data-Conforms (field ∷ schema) data_ =
      let (split, join) =
        append-nil_iff (field_errors R field (lookup field.key data_))
          (validate_record_data R schema data_) in
      let (head, head_back) = field_errors-Conforms field (lookup field.key data_) in
      let (tail, tail_back) = validate_record_data-Conforms schema data_ in
      (λ h. (head (split h).0, tail (split h).1), λ h. join (head_back h.0, tail_back h.1))
