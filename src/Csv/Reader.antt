-- ===== src/Csv/Reader.antt =====
-- A reader of CSV as RFC 4180 describes the format, against which the exports of
-- web/src/lib/export.ts are stated.
use karadul.Base.{ℕ, List, [], ◌∷◌, ◌++◌, foldl, ◌==◌, if◌then◌else◌, Text}

-- Outside quotes, inside them, and behind a quote that may have closed them.
pub data Mode : Type 0 where
  plain quoted after : Mode

pub record Reader : Type 0 where
  pub mode : Mode
  pub field : Text
  pub row : List Text
  pub rows : List (List Text)

abbrev pub reader : Mode → Text → List Text → List (List Text) → Reader
reader mode field row rows = record { mode = mode; field = field; row = row; rows = rows }

-- A unit that is no quote, outside quotes.
outside : Reader → ℕ → Reader
outside r c =
    if c == b','
    then reader plain [] (r.row ++ r.field ∷ []) r.rows
    else if c == 10
    then reader plain [] [] (r.rows ++ (r.row ++ r.field ∷ []) ∷ [])
    else reader plain (r.field ++ c ∷ []) r.row r.rows

read_in : Mode → Reader → ℕ → Reader
unfolding outside
read_in plain r c = if c == b'"' then reader quoted r.field r.row r.rows else outside r c
read_in quoted r c =
    if c == b'"'
    then reader after r.field r.row r.rows
    else reader quoted (r.field ++ c ∷ []) r.row r.rows
read_in after r c =
    if c == b'"' then reader quoted (r.field ++ c ∷ []) r.row r.rows else outside r c

unfoldable pub read_unit : Reader → ℕ → Reader
unfolding read_in
read_unit r c = read_in r.mode r c

-- The rows of a text, each as the list of its fields.
unfoldable pub read_csv : Text → List (List Text)
unfolding read_unit
read_csv s =
    let r = foldl read_unit (reader plain [] [] []) s in r.rows ++ (r.row ++ r.field ∷ []) ∷ []
