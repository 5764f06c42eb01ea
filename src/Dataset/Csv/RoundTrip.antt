-- ===== src/Dataset/Csv/RoundTrip.antt =====
-- The export of src/dataset/dataset-csv.service.ts reads back.
use mathlib.Core.List.{append_assoc, append-nil}
use documents_backend.Common.{
  filter, nat_eq, ok, ℕ, Bool, true, false, is_some, ◌≡◌, refl, sym, ap, ◌∙◌, Option, none, some,
  List, [], ◌∷◌, ◌++◌, map,
}
use documents_backend.Dataset.Types.{Runtime, DatasetField, CellAnchor, DatasetRecord}
use documents_backend.Dataset.Store.{Dataset, Store, find_dataset}
use documents_backend.Dataset.Csv.Export.{
  ResourceTitle, csv_filename, resolver, export_csv, Text, comma, newline, escape, join, header,
  plain_cells, anchored_header, anchor_cells, anchored_cells, export_records_csv, cell_text,
  page_text,
}
use documents_backend.Dataset.Csv.Escaped.{Follows, at_end, at_comma, at_newline, cut-escape}
use documents_backend.Dataset.Csv.Reader.{Cut, start, plain, end_cell, end_row, cut, read_csv}
use documents_backend.Common.Dict.{lookup}
use documents_backend.Common.Text.{codes}

abbrev row_cut : Text → List Text → List (List Text) → Cut
row_cut t ts rows = record { cell = t; cells = ts; rows = rows }

plain-comma : (k : Text) → cut plain (comma ∷ k) ≡ end_cell (cut start k)
unfolding cut
plain-comma k = refl

plain-newline : (k : Text) → cut plain (newline ∷ k) ≡ end_row (cut start k)
unfolding cut
plain-newline k = refl

-- A line is read as its cells.
cut-line :
    (t : Text) (ts : List Text) (k : Text) (rows : List (List Text))
    → Follows k
    → cut plain k ≡ row_cut [] [] rows
    → cut start (join comma (map escape (t ∷ ts)) ++ k) ≡ row_cut t ts rows
unfolding join
cut-line t [] k rows follows below = cut-escape t k follows ∙ rw below (rw (append-nil t) refl)
cut-line t (u ∷ ts) k rows follows below =
    let rest = join comma (map escape (u ∷ ts)) in
    let read = cut-line u ts k rows follows below in
    ap (cut start) (append_assoc (escape t) (comma ∷ rest) k)
    ∙ (cut-escape t (comma ∷ (rest ++ k)) (at_comma (rest ++ k))
        ∙ rw (plain-comma (rest ++ k)) (rw read (rw (append-nil t) refl)))

-- A row that is not empty.
abbrev pub CsvRow : Type 0
CsvRow = Text × List Text

abbrev pub row_cells : CsvRow → List Text
row_cells (t, ts) = t ∷ ts

abbrev pub line : CsvRow → Text
line (t, ts) = join comma (map escape (t ∷ ts))

nothing_left : cut plain [] ≡ row_cut [] [] []
unfolding cut
nothing_left = refl

cut-lines :
    (t : Text) (ts : List Text) (rows : List CsvRow)
    → cut start (join newline (map line ((t, ts) ∷ rows))) ≡ row_cut t ts (map row_cells rows)
unfolding join
cut-lines t ts [] =
    ap (cut start) (sym (append-nil (line (t, ts)))) ∙ cut-line t ts [] [] at_end nothing_left
cut-lines t ts ((u, us) ∷ rows) =
    let rest = join newline (map line ((u, us) ∷ rows)) in
    cut-line t ts (newline ∷ rest) (map row_cells ((u, us) ∷ rows)) (at_newline rest)
      (plain-newline rest ∙ ap end_row (cut-lines u us rows))

lines_of :
    {A : Type 0} (cells : A → List Text) (row : A → CsvRow) (items : List A)
    → ((a : A) → cells a ≡ map escape (row_cells (row a)))
    → map (λ a. join comma (cells a)) items ≡ map line (map row items)
lines_of cells row [] same = refl
lines_of cells row (a ∷ items) same = rw (same a, lines_of cells row items same) refl

map-map :
    {A B C : Type 0} (g : B → C) (f : A → B) (xs : List A)
    → map g (map f xs) ≡ map (λ x. g (f x)) xs
map-map g f [] = refl
map-map g f (x ∷ xs) = ap (λ rest. g (f x) ∷ rest) (map-map g f xs)

-- Lines of escaped cells are read as the rows.
read-table :
    {A : Type 0} (head : List Text) (top : CsvRow) (cells : A → List Text) (row : A → CsvRow)
    (items : List A)
    → head ≡ map escape (row_cells top)
    → ((a : A) → cells a ≡ map escape (row_cells (row a)))
    → read_csv (join newline (join comma head ∷ map (λ a. join comma (cells a)) items))
      ≡ row_cells top ∷ map (λ a. row_cells (row a)) items
unfolding read_csv
read-table head (t, ts) cells row items first same =
    rw (first, lines_of cells row items same)
      (rw (cut-lines t ts (map row items))
        (ap (λ rest. (t ∷ ts) ∷ rest) (map-map row_cells row items)))

module _ (R : Runtime) where
  -- The table that an export shows, without anchors and with them.
  unfoldable pub names : Bool → List DatasetField → List Text
  names anchored [] = []
  names false (f ∷ schema) = codes f.name ∷ names false schema
  names true (f ∷ schema) =
      codes f.name
      ∷ (codes f.key ++ codes "_source")
      ∷ (codes f.key ++ codes "_page")
      ∷ (codes f.key ++ codes "_quote")
      ∷ names true schema

  abbrev pub anchor_texts : (ℕ → Text) → Option CellAnchor → List Text
  anchor_texts title none = [] ∷ [] ∷ [] ∷ []
  anchor_texts title (some anchor) =
      title anchor.source_resource_id ∷ page_text R anchor.page ∷ codes anchor.quote ∷ []

  abbrev pub own_texts : Option (ℕ → Text) → Option CellAnchor → List Text
  own_texts none anchor = []
  own_texts (some title) anchor = anchor_texts title anchor

  unfoldable pub texts : Option (ℕ → Text) → List DatasetField → DatasetRecord R → List Text
  texts title [] r = []
  texts title (f ∷ schema) r =
      cell_text R (lookup f.key r.data_)
      ∷ (own_texts title (lookup f.key r.cell_metadata) ++ texts title schema r)

  header-names : (schema : List DatasetField) → header R schema ≡ map escape (names false schema)
  unfolding names
  header-names [] = refl
  header-names (f ∷ schema) = ap (λ rest. escape (codes f.name) ∷ rest) (header-names schema)

  anchored_header-names :
      (schema : List DatasetField) → anchored_header R schema ≡ map escape (names true schema)
  unfolding names anchored_header
  anchored_header-names [] = refl
  anchored_header-names (f ∷ schema) = rw (anchored_header-names schema) refl

  plain_cells-texts :
      (schema : List DatasetField) (r : DatasetRecord R)
      → plain_cells R schema r ≡ map escape (texts none schema r)
  unfolding texts
  plain_cells-texts [] r = refl
  plain_cells-texts (f ∷ schema) r = rw (plain_cells-texts schema r) refl

  anchor_cells-texts :
      (title : ℕ → Text) (anchor : Option CellAnchor) (rest : List Text)
      → anchor_cells R title anchor ++ map escape rest
        ≡ map escape (anchor_texts title anchor ++ rest)
  unfolding escape
  anchor_cells-texts title none rest = refl
  anchor_cells-texts title (some anchor) rest = refl

  anchored_cells-texts :
      (title : ℕ → Text) (schema : List DatasetField) (r : DatasetRecord R)
      → anchored_cells R title schema r ≡ map escape (texts (some title) schema r)
  unfolding texts anchored_cells
  anchored_cells-texts title [] r = refl
  anchored_cells-texts title (f ∷ schema) r =
      let rest = texts (some title) schema r in
      let own = anchor_cells-texts title (lookup f.key r.cell_metadata) rest in
      rw (anchored_cells-texts title schema r)
        (ap (λ cells. escape (cell_text R (lookup f.key r.data_)) ∷ cells) own)

  -- An export of a schema that has columns, read as CSV, gives the names of the columns and then
  -- the texts of each record, with the source, page and quote of each cell if they are included.
  read_csv-export_records_csv :
      (f : DatasetField) (schema : List DatasetField) (records : List (DatasetRecord R))
      (title : Option (ℕ → Text))
      → read_csv (export_records_csv R (f ∷ schema) records title)
        ≡ names (is_some title) (f ∷ schema) ∷ map (texts title (f ∷ schema)) records
  unfolding export_records_csv names texts
  read_csv-export_records_csv f schema records none =
      read-table _ (codes f.name, names false schema) (plain_cells R (f ∷ schema))
        (λ r. (cell_text R (lookup f.key r.data_), texts none schema r)) records
        (header-names (f ∷ schema)) (plain_cells-texts (f ∷ schema))
  read_csv-export_records_csv f schema records (some title) =
      read-table _
        (
          codes f.name,
          (codes f.key ++ codes "_source")
              ∷ (codes f.key ++ codes "_page")
              ∷ (codes f.key ++ codes "_quote")
              ∷ names true schema,
        )
        (anchored_cells R title (f ∷ schema))
        (λ r. (
          cell_text R (lookup f.key r.data_),
          anchor_texts title (lookup f.key r.cell_metadata) ++ texts (some title) schema r,
        ))
        records (anchored_header-names (f ∷ schema)) (anchored_cells-texts title (f ∷ schema))

  export_csv-found :
      (latest_first : List (DatasetRecord R) → List (DatasetRecord R)) (id : ℕ)
      (include_anchors : Bool) (resources : List ResourceTitle) (s : Store R) (dataset : Dataset)
      → find_dataset id s ≡ some dataset
      → export_csv R latest_first id include_anchors resources s
        ≡ ok (
          csv_filename dataset.name,
          export_records_csv R dataset.schema
              (latest_first (filter (λ r. nat_eq r.dataset id) s.records))
              (resolver R include_anchors resources),
        )
  unfolding export_csv
  export_csv-found latest_first id include_anchors resources s dataset there = rw there refl

  -- What an export writes of a dataset that has columns, read as CSV, is the names of the columns and
  -- then the texts of each of its records, in the order of the query, with the source, page and quote
  -- of each cell if anchors are included.
  pub read_csv-export_csv :
      (latest_first : List (DatasetRecord R) → List (DatasetRecord R)) (id : ℕ)
      (include_anchors : Bool) (resources : List ResourceTitle) (s : Store R) {file csv : Text}
      (dataset : Dataset) (f : DatasetField) (schema : List DatasetField)
      → export_csv R latest_first id include_anchors resources s ≡ ok (file, csv)
      → find_dataset id s ≡ some dataset
      → dataset.schema ≡ f ∷ schema
      → let title = resolver R include_anchors resources in
        read_csv csv
        ≡ names (is_some title) (f ∷ schema)
          ∷ map
              (texts title (f ∷ schema))
              (latest_first (filter (λ r. nat_eq r.dataset id) s.records))
  read_csv-export_csv latest_first id include_anchors resources s {csv} dataset f schema e there
        columns =
      let records = latest_first (filter (λ r. nat_eq r.dataset id) s.records) in
      let title = resolver R include_anchors resources in
      let written : export_records_csv R (f ∷ schema) records title ≡ csv =
        cc (
          export_csv-found latest_first id include_anchors resources s dataset there,
          columns,
          e,
        ) in
      rw (← written) (read_csv-export_records_csv f schema records title)
