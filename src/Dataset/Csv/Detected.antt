-- ===== src/Dataset/Csv/Detected.antt =====
-- The type that `inferSchema` of src/dataset/dataset-csv.service.ts detects for a column suits every
-- row's cell.
use mathlib.Core.List.{Memᴰ}
use documents_backend.Common.{
  ℕ, zero, suc, ◌≤◌, String, Bool, true, false, ◌≡◌, refl, ap, Option, none, some, List, [], ◌∷◌,
  all, length, All, All-map, str_eq, eq_iff, is_some, arith, inl, inr, Bool-cases, and-parts,
}
use mathlib.Core.Option
use documents_backend.Dataset.Types.{Runtime, str, FieldType, DatasetField}
use documents_backend.Dataset.Conforms.{IsBoolean, yes, no, Suits, Conforms, blank, filled}
use documents_backend.Dataset.Csv.Infer.{
  take, cell, keep_value, column, is_bool_text, is_number_text, is_date_text, detect_sample,
  detect_type, inferred_field,
}

take-all : {A : Type 0} (n : ℕ) (xs : List A) → length xs ≤ n → take n xs ≡ xs
take-all zero [] h = refl
take-all zero (x ∷ xs) h = absurd (omega arith)
take-all (suc n) [] h = refl
take-all (suc n) (x ∷ xs) h = ap (λ rest. x ∷ rest) (take-all n xs (omega arith))

all-All : (p : String → Bool) (xs : List String) → all p xs ≡ true → All (λ v. p v ≡ true) xs
all-All p [] h = tt
all-All p (x ∷ xs) h = (ground arith, all-All p xs (ground arith))

All-Unit : (xs : List String) → All {0, 0} (λ v. Unit) xs
All-Unit [] = tt
All-Unit (x ∷ xs) = (tt, All-Unit xs)

is_some-value : {A : Type 0} (o : Option A) → is_some o ≡ true → (a : A) × (o ≡ some a)
is_some-value none h = cc
is_some-value (some a) h = (a, refl)

keep_value-All :
    (P : String → Type 0) (o : Option String) (rest : List String) (v : String)
    → All P (keep_value o rest)
    → o ≡ some v
    → str_eq v "" ≡ false
    → P v
keep_value-All P none rest v h e full = cc
keep_value-All P (some w) rest v h e full =
    let same : w ≡ v = cc in let whole : All P (v ∷ rest) = rw full at (rw same at h) in whole.0

keep_value-rest :
    (P : String → Type 0) (o : Option String) (rest : List String)
    → All P (keep_value o rest)
    → All P rest
keep_value-rest P none rest h = h
keep_value-rest P (some w) rest h = elim (Bool-cases (str_eq w "")) [
  | inl t ↦ rw t at h
  | inr t ↦ let whole : All P (w ∷ rest) = rw t at h in whole.1
]

length-keep_value :
    (o : Option String) (rest : List String) → length (keep_value o rest) ≤ suc (length rest)
length-keep_value none rest = omega arith
length-keep_value (some v) rest = ground arith

-- A column has at most one value for each row.
pub length-column : (i : ℕ) (rows : List (List String)) → length (column i rows) ≤ length rows
unfolding column
length-column i [] = omega arith
length-column i (row ∷ rows) =
    let here = length-keep_value (cell i row) (column i rows) in
    let rest = length-column i rows in omega arith

-- What holds of the values of a column holds of each row's cell that is not empty.
column-cell :
    (P : String → Type 0) (i : ℕ) (rows : List (List String)) (row : List String)
    → All P (column i rows)
    → Memᴰ row rows
    → (v : String) → cell i row ≡ some v
    → str_eq v "" ≡ false
    → P v
unfolding column
column-cell P i [] r h m v there full = elim m [ ]
column-cell P i (row ∷ rows) r h (Memᴰ.head same) v there full =
    keep_value-All P (cell i row) (column i rows) v h (rw (← same) there) full
column-cell P i (row ∷ rows) r h (Memᴰ.tail m) v there full =
    column-cell P i rows r (keep_value-rest P (cell i row) (column i rows) h) m v there full

module _ (R : Runtime) where
  bool_text-IsBoolean : (v : String) → is_bool_text v ≡ true → IsBoolean R (str v)
  bool_text-IsBoolean v h = elim (Bool-cases (str_eq v "true")) [
    | inl t ↦ let same = (eq_iff v "true").0 t in rw same yes
    | inr t ↦ let same = (eq_iff v "false").0 (ground arith) in rw same no
  ]

  -- The texts of a sample suit the type that is detected.
  detect_sample-Suits :
      (field : DatasetField) (sample : List String)
      → All (λ v. Suits R field (detect_sample R sample) (str v)) sample
  unfolding detect_sample
  detect_sample-Suits field sample = elim (Bool-cases (all is_bool_text sample)) [
    | inl t ↦ rw t (All-map _ _ sample bool_text-IsBoolean (all-All is_bool_text sample t))
    | inr t ↦ rw t (elim (Bool-cases (all (is_number_text R) sample)) [
      | inl u ↦ rw u (
          All-map _ _ sample (λ v. is_some-value (R.parse v)) (all-All (is_number_text R) sample u))
      | inr u ↦ rw u (elim (Bool-cases (all (is_date_text R) sample)) [
        | inl w ↦ rw w (
            All-map _ _ sample (λ v h. (and-parts _ (R.is_date v) h).1)
              (all-All (is_date_text R) sample w))
        | inr w ↦ rw w (All-Unit sample)
      ])
    ])
  ]

  detect_type-sample :
      (v : String) (values : List String)
      → length (v ∷ values) ≤ 100
      → detect_type R (v ∷ values) ≡ detect_sample R (v ∷ values)
  unfolding detect_type
  detect_type-sample v values h = ap (detect_sample R) (take-all 100 (v ∷ values) h)

  detected-Suits :
      (field : DatasetField) (t : FieldType) (values : List String)
      → t ≡ detect_sample R values
      → All (λ v. Suits R field t (str v)) values
  detected-Suits field t values same = rw same (detect_sample-Suits field values)

  detect_type-Suits :
      (field : DatasetField) (values : List String)
      → length values ≤ 100
      → All (λ v. Suits R field (detect_type R values) (str v)) values
  detect_type-Suits field [] h = tt
  detect_type-Suits field (v ∷ values) h =
      detected-Suits field _ (v ∷ values) (detect_type-sample v values h)

  -- Every row's cell conforms to the column that was inferred from the rows.
  pub inferred_field-Conforms :
      (header : String) (i : ℕ) (rows : List (List String)) (row : List String)
      → length (column i rows) ≤ 100
      → Memᴰ row rows
      → Conforms R (inferred_field R header (column i rows)) (Option.map str (cell i row))
  inferred_field-Conforms header i rows row bound m =
      let field = inferred_field R header (column i rows) in
      let suits = detect_type-Suits field (column i rows) bound in
      cell_conforms (cell i row) (column-cell _ i rows row suits m)
    where
      cell_conforms :
          (o : Option String)
          → ((v : String)
              → o ≡ some v
              → str_eq v "" ≡ false
              → Suits R
                  (inferred_field R header (column i rows))
                  (detect_type R (column i rows))
                  (str v))
          → Conforms R (inferred_field R header (column i rows)) (Option.map str o)
      cell_conforms none suits = blank refl refl
      cell_conforms (some v) suits = elim (Bool-cases (str_eq v "")) [
        | inl t ↦ blank refl t
        | inr t ↦ filled t (suits v refl t)
      ]
