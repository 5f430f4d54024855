-- ===== src/Rag/Csv.antt =====
-- src/rag/loaders/csv_parser.cpp, include/langchain/rag/loaders/csv_loader.hpp and
-- src/rag/loaders/csv_loader.cpp.
pub mod RoundTrip
use langchain_cpp.Base.{
  ℕ, zero, suc, Bool, true, false, not, ◌&&◌, ◌||◌, List, [], ◌∷◌, ◌++◌, Option, none, some, ◌==◌,
  if◌then◌else◌, is_empty, get_elem?,
}
use langchain_cpp.Base.Text.{Text, codes, text_eq}
use langchain_cpp.Base.Dict.{Dict, insert}
use langchain_cpp.Base.Join.{join}
use langchain_cpp.Base.Json.{Json, natural}
use langchain_cpp.Rag.Document.{Document}
use langchain_cpp.Base.Outcome.{Outcome, ok, throws}

-- The locals of parse_csv.
pub record Csv : Type 0 where
  pub rows : List (List Text)
  pub row : List Text
  pub field : Text
  pub in_quotes : Bool
  pub quoted : Bool

abbrev pub no_csv : Csv
no_csv = record { rows = []; row = []; field = []; in_quotes = false; quoted = false }

abbrev pub push : ℕ → Csv → Csv
push c s = record s { field = s.field ++ c ∷ [] }

-- A delimiter ends the field.
abbrev pub end_field : Csv → Csv
end_field s = record s { row = s.row ++ s.field ∷ []; field = []; quoted = false }

-- A newline ends the row.
abbrev pub end_row : Csv → Csv
end_row s = record s {
  rows = s.rows ++ (s.row ++ s.field ∷ []) ∷ [];
  row = [];
  field = [];
  quoted = false;
}

-- A byte outside quotes.
unfoldable pub plain_byte : ℕ → ℕ → Csv → Csv
plain_byte delimiter c s =
    if c == 34 && is_empty s.field && not s.quoted
    then record s { in_quotes = true; quoted = true }
    else if c == delimiter
    then end_field s
    else if c == 13
    then s
    else if c == 10
    then end_row s
    else push c s

-- A byte inside quotes which is not an escaped quote.
unfoldable pub quoted_byte : ℕ → Csv → Csv
quoted_byte c s = if c == 34 then record s { in_quotes = false } else push c s

unfoldable pub step : ℕ → ℕ → Csv → Csv
unfolding plain_byte quoted_byte
step delimiter c s = if s.in_quotes then quoted_byte c s else plain_byte delimiter c s

-- The loop of parse_csv; an escaped quote takes two bytes.
unfoldable pub read : ℕ → Text → Csv → Csv
unfolding step
read delimiter [] s = s
read delimiter (c ∷ []) s = step delimiter c s
read delimiter (c ∷ d ∷ rest) s =
    let pair = read delimiter rest (push 34 s) in
    let one = read delimiter (d ∷ rest) (step delimiter c s) in
    if s.in_quotes && (c == 34 && d == 34) then pair else one

unfoldable pub close : Csv → List (List Text)
close s =
    if not (is_empty s.field) || not (is_empty s.row)
    then s.rows ++ (s.row ++ s.field ∷ []) ∷ []
    else s.rows

unfoldable pub parse_csv : Text → ℕ → List (List Text)
unfolding read close
parse_csv content delimiter = close (read delimiter content no_csv)

pub record Config : Type 0 where
  pub delimiter : ℕ
  pub content_column : Text

abbrev pub next_index : Option ℕ → Option ℕ
next_index none = none
next_index (some i) = some (suc i)

-- The first column with the name.
unfoldable pub column_index : Text → List Text → Option ℕ
column_index name [] = none
column_index name (h ∷ header) =
    let rest = next_index (column_index name header) in if text_eq h name then some 0 else rest

abbrev pub is_column : Option ℕ → ℕ → Bool
is_column none i = false
is_column (some j) i = i == j

-- The lines "column: value" of the columns from `i` on, without the content column.
unfoldable pub column_lines : Option ℕ → ℕ → List Text → List Text → List Text
column_lines skipped i (h ∷ header) (v ∷ row) =
    let rest = column_lines skipped (suc i) header row in
    if is_column skipped i then rest else (h ++ (codes ": " ++ v)) ∷ rest
column_lines skipped i [] row = []
column_lines skipped i (h ∷ header) [] = []

abbrev pub text_or : Option Text → Text → Text
text_or none d = d
text_or (some t) d = t

unfoldable pub row_content : Option ℕ → List Text → List Text → Text
unfolding column_lines
row_content none header row = join (10 ∷ []) (column_lines none 0 header row)
row_content (some i) header row =
    text_or (get_elem? row i) (join (10 ∷ []) (column_lines (some i) 0 header row))

module _ (J : Json) where
  open J use {Value, string, integer}

  unfoldable pub add_columns : List Text → List Text → Dict Value → Dict Value
  add_columns (h ∷ header) (v ∷ row) m = add_columns header row (insert h (string v) m)
  add_columns [] row m = m
  add_columns (h ∷ header) [] m = m

  unfoldable pub row_document : Text → Option ℕ → List Text → ℕ → List Text → Document Value
  unfolding add_columns row_content
  row_document path column header i row = record {
    content = row_content column header row;
    metadata =
        add_columns header row
          (insert (codes "row") (integer (natural i)) ((codes "source", string path) ∷ []));
  }

  unfoldable pub row_documents :
      Text → Option ℕ → List Text → ℕ → List (List Text) → List (Document Value)
  unfolding row_document
  row_documents path column header i [] = []
  row_documents path column header i (row ∷ rows) =
      row_document path column header i row ∷ row_documents path column header (suc i) rows

  abbrev pub with_column :
      Text → Config → List Text → Option ℕ → List (List Text) → Outcome (List (Document Value))
  with_column path config header none rows = throws (
      codes "CsvLoader: content_column '"
      ++ (config.content_column ++ (codes "' not found in header of " ++ path)))
  with_column path config header (some i) rows = ok (row_documents path (some i) header 0 rows)

  abbrev pub load_rows : Text → Config → List (List Text) → Outcome (List (Document Value))
  load_rows path config [] = ok []
  load_rows path config (header ∷ rows) =
      if is_empty config.content_column
      then ok (row_documents path none header 0 rows)
      else with_column path config header (column_index config.content_column header) rows

  -- CsvLoader::load; the file's bytes, none where it cannot be opened
  unfoldable pub load : Text → Config → Option Text → Outcome (List (Document Value))
  unfolding row_documents column_index
  load path config none = throws (codes "CsvLoader: could not open file: " ++ path)
  load path config (some bytes) = load_rows path config (parse_csv bytes config.delimiter)
