-- ===== src/Dataset/Csv/Export.antt =====
-- `exportRecordsCsv` of src/dataset/dataset-csv.service.ts and `exportCsv` of
-- src/dataset/dataset.service.ts. A text is the list of its code points.
use Prim.Native.Nat.{◌/◌, ◌%◌}
use documents_backend.Common.{
  filter, find, or_else, Result, ok, ◌>>=◌, nat_eq, ℕ, zero, suc, ◌+◌, leb, String, Bool, true,
  false, ◌&&◌, ◌||◌, Option, none, some, List, [], ◌∷◌, ◌++◌, map, any, ltb, nat_eq, if◌then◌else◌,
}
use documents_backend.Common.Dict.{lookup}
use documents_backend.Common.Text.{codes}
use documents_backend.Dataset.Store.{Store, find_dataset}
use documents_backend.Dataset.Records.{found}
use documents_backend.Dataset.Source.{nonempty}
use documents_backend.Dataset.Types.{
  Runtime, Value, null, to_text, DatasetField, CellAnchor, DatasetRecord,
}

abbrev pub Text : Type 0
Text = List ℕ

abbrev pub comma : ℕ
comma = b','

abbrev pub quote_mark : ℕ
quote_mark = b'"'

abbrev pub newline : ℕ
newline = 10

-- The characters for which a cell is put between quotes.
abbrev pub is_special : ℕ → Bool
is_special c = nat_eq c comma || nat_eq c quote_mark || nat_eq c newline || nat_eq c 13

-- `str.replace(/"/g, '""')`.
unfoldable pub doubled : Text → Text
doubled [] = []
doubled (c ∷ cs) = let rest = doubled cs in if nat_eq c quote_mark then c ∷ c ∷ rest else c ∷ rest

-- `escapeCsv` on a text.
unfoldable pub escape : Text → Text
escape s = if any is_special s then quote_mark ∷ (doubled s ++ quote_mark ∷ []) else s

-- `array.join(separator)` for a separator of one character.
unfoldable pub join : ℕ → List Text → Text
join separator [] = []
join separator (s ∷ []) = s
join separator (s ∷ t ∷ ss) = s ++ separator ∷ join separator (t ∷ ss)

-- `String(n)` of a natural number, with the digits after it. The fuel is one for each digit.
unfoldable pub decimal_from : ℕ → ℕ → Text → Text
decimal_from zero n after = after
decimal_from (suc fuel) n after = elim (ltb n 10) [
  | true ↦ (b'0' + n) ∷ after
  | false ↦ decimal_from fuel (n / 10) ((b'0' + n % 10) ∷ after)
]

unfoldable pub decimal : ℕ → Text
unfolding decimal_from
decimal n = decimal_from (suc n) n []

-- `dataset.name.replace(/[^a-zA-Z0-9_-]/g, '_')`, with the extension.
abbrev is_file_char : ℕ → Bool
is_file_char c =
    (leb b'a' c && leb c b'z')
    || (leb b'A' c && leb c b'Z')
    || (leb b'0' c && leb c b'9')
    || nat_eq c b'_'
    || nat_eq c b'-'

unfoldable pub csv_filename : String → Text
csv_filename name = map (λ c. if is_file_char c then c else b'_') (codes name) ++ codes ".csv"

pub record ResourceTitle : Type 0 where
  pub id : ℕ
  pub title : Option String
  pub name : Option String

module _ (R : Runtime) where
  -- The text of a value that `escapeCsv` is given: none of `null` and `undefined`.
  abbrev pub cell_text : Option (Value R) → Text
  cell_text none = []
  cell_text (some null) = []
  cell_text (some value) = codes (to_text R value)

  abbrev pub header : List DatasetField → List Text
  header schema = map (λ f. escape (codes f.name)) schema

  abbrev pub plain_cells : List DatasetField → DatasetRecord R → List Text
  plain_cells schema r = map (λ f. escape (cell_text (lookup f.key r.data_))) schema

  -- A column of the values, and the three that tell where each came from.
  unfoldable pub anchored_header : List DatasetField → List Text
  anchored_header [] = []
  anchored_header (f ∷ schema) =
      escape (codes f.name)
      ∷ escape (codes f.key ++ codes "_source")
      ∷ escape (codes f.key ++ codes "_page")
      ∷ escape (codes f.key ++ codes "_quote")
      ∷ anchored_header schema

  abbrev pub page_text : Option ℕ → Text
  page_text none = []
  page_text (some page) = decimal page

  abbrev pub anchor_cells : (ℕ → Text) → Option CellAnchor → List Text
  anchor_cells title none = [] ∷ [] ∷ [] ∷ []
  anchor_cells title (some anchor) =
      escape (title anchor.source_resource_id)
      ∷ escape (page_text anchor.page)
      ∷ escape (codes anchor.quote)
      ∷ []

  unfoldable pub anchored_cells : (ℕ → Text) → List DatasetField → DatasetRecord R → List Text
  anchored_cells title [] r = []
  anchored_cells title (f ∷ schema) r =
      escape (cell_text (lookup f.key r.data_))
      ∷ (anchor_cells title (lookup f.key r.cell_metadata) ++ anchored_cells title schema r)

  -- `title` stands for `resourceTitleResolver`, which is there if anchors are included.
  unfoldable pub export_records_csv :
      List DatasetField → List (DatasetRecord R) → Option (ℕ → Text) → Text
  export_records_csv schema records none =
      join newline
        (join comma (header schema) ∷ map (λ r. join comma (plain_cells schema r)) records)
  export_records_csv schema records (some title) = join newline (
      join comma (anchored_header schema)
      ∷ map (λ r. join comma (anchored_cells title schema r)) records)

  -- The resources that the anchors name, from the resource service.
  unfoldable pub title_of : List ResourceTitle → ℕ → Text
  title_of resources id = elim (find (λ r. nat_eq r.id id) resources) [
    | none ↦ []
    | some r ↦ elim (or_else (nonempty r.title) (nonempty r.name)) [
      | some title ↦ codes title
      | none ↦ codes "Resource " ++ decimal r.id
    ]
  ]

  -- The resolver, if anchors are included.
  abbrev pub resolver : Bool → List ResourceTitle → Option (ℕ → Text)
  resolver false resources = none
  resolver true resources = some (title_of resources)

  -- The file name and the text. `latest_first` is the order in which the query gives the records:
  -- by the time of their creation, the latest first, and at will where they were created at once.
  unfoldable pub export_csv :
      (List (DatasetRecord R) → List (DatasetRecord R))
      → ℕ
      → Bool
      → List ResourceTitle
      → Store R
      → Result (Text × Text)
  export_csv latest_first id include_anchors resources s =
      found "Dataset not found" (find_dataset id s) >>= λ dataset.
      let records = latest_first (filter (λ r. nat_eq r.dataset id) s.records) in
      ok (
        csv_filename dataset.name,
        export_records_csv dataset.schema records (resolver include_anchors resources),
      )
