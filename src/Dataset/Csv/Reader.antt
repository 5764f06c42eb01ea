-- ===== src/Dataset/Csv/Reader.antt =====
-- What a CSV text says (RFC 4180): the reference for the export of src/dataset/dataset-csv.service.ts.
use documents_backend.Common.{ℕ, List, [], ◌∷◌, ◌++◌, nat_eq, if◌then◌else◌}
use documents_backend.Dataset.Csv.Export.{Text, comma, quote_mark, newline}

-- The rest of a text, cut up: of the cell that is being read, of its row, and the rows below.
pub record Cut : Type 0 where
  pub cell : Text
  pub cells : List Text
  pub rows : List (List Text)

-- At the start of a cell; in one without quotes; between the quotes; after a quote between them.
pub data Place : Type 0 where
  start plain quoted closing : Place

abbrev pub push : Text → Cut → Cut
push s t = record t { cell = s ++ t.cell }

abbrev pub end_cell : Cut → Cut
end_cell t = record { cell = []; cells = t.cell ∷ t.cells; rows = t.rows }

abbrev pub end_row : Cut → Cut
end_row t = record { cell = []; cells = []; rows = (t.cell ∷ t.cells) ∷ t.rows }

-- What a character means outside quotes.
pub data Kind : Type 0 where
  a_quote a_comma a_newline a_letter : Kind

abbrev pub kind : ℕ → Kind
kind c =
    if nat_eq c quote_mark
    then a_quote
    else if nat_eq c comma
    then a_comma
    else if nat_eq c newline
    then a_newline
    else a_letter

unfoldable pub cut : Place → Text → Cut
cut place [] = record { cell = []; cells = []; rows = [] }
cut start (c ∷ cs) = elim (kind c) [
  | a_quote ↦ cut quoted cs
  | a_comma ↦ end_cell (cut start cs)
  | a_newline ↦ end_row (cut start cs)
  | a_letter ↦ push (c ∷ []) (cut plain cs)
]
cut plain (c ∷ cs) = elim (kind c) [
  | a_comma ↦ end_cell (cut start cs)
  | a_newline ↦ end_row (cut start cs)
  | _ ↦ push (c ∷ []) (cut plain cs)
]
cut quoted (c ∷ cs) = elim (kind c) [ a_quote ↦ cut closing cs | _ ↦ push (c ∷ []) (cut quoted cs) ]
cut closing (c ∷ cs) = elim (kind c) [
  | a_quote ↦ push (c ∷ []) (cut quoted cs)
  | a_comma ↦ end_cell (cut start cs)
  | a_newline ↦ end_row (cut start cs)
  | a_letter ↦ push (c ∷ []) (cut plain cs)
]

-- The rows of a text.
unfoldable pub read_csv : Text → List (List Text)
unfolding cut
read_csv s = let t = cut start s in (t.cell ∷ t.cells) ∷ t.rows
