-- ===== src/Csv/RoundTrip.antt =====
-- Reading an exported table (web/src/lib/export.ts) back.
use mathlib.Core.List.{foldl-append, append_assoc, append-nil, map-map}
use karadul.Base.{
  ◌≡◌, refl, sym, ap, ◌∙◌, inl, inr, Bool, true, false, List, [], ◌∷◌, ◌++◌, map, foldl, arith,
  Bool-cases, Text, codes, join, has_unit, show_number, All, has_unit-show_number,
}
use karadul.Csv.{Value, cell, csv_row, to_csv, null, undefined, text, number, boolean}
use karadul.Csv.Reader.{Mode, Reader, reader, read_unit, read_csv, plain, quoted, after}

-- What a cell stands for.
abbrev pub shown : Value → Text
shown null = []
shown undefined = []
shown (text s) = s
shown (number n) = show_number n
shown (boolean true) = codes "true"
shown (boolean false) = codes "false"

-- A text without quotes and line feeds.
abbrev pub IsClean : Value → Type 0
IsClean (text s) = (has_unit b'"' s ≡ false) × (has_unit 10 s ≡ false)
IsClean _ = Unit

read-plain :
    (s f : Text) (row : List Text) (rows : List (List Text))
    → has_unit b'"' s ≡ false
    → has_unit 10 s ≡ false
    → has_unit b',' s ≡ false
    → foldl read_unit (reader plain f row rows) s ≡ reader plain (f ++ s) row rows
unfolding read_unit
read-plain [] f row rows q l c = rw append-nil
read-plain (x ∷ s) f row rows q l c =
    ground (arith, append_assoc f (x ∷ []) s, read-plain s (f ++ x ∷ []) row rows)

read-quoted :
    (s f : Text) (row : List Text) (rows : List (List Text))
    → has_unit b'"' s ≡ false
    → foldl read_unit (reader quoted f row rows) s ≡ reader quoted (f ++ s) row rows
unfolding read_unit
read-quoted [] f row rows q = rw append-nil
read-quoted (x ∷ s) f row rows q =
    ground (arith, append_assoc f (x ∷ []) s, read-quoted s (f ++ x ∷ []) row rows)

-- A reader that stands behind a whole row.
abbrev is_quoted : Mode → Bool
is_quoted quoted = true
is_quoted _ = false

record Ends (r : Reader) (row : List Text) (rows : List (List Text)) : Type 0 where
  outside_quotes : is_quoted r.mode ≡ false
  row_read : r.row ++ r.field ∷ [] ≡ row
  rows_read : r.rows ≡ rows

read-quoted_cell :
    (s : Text) (row : List Text) (rows : List (List Text))
    → has_unit b'"' s ≡ false
    → foldl read_unit (reader plain [] row rows) (codes "\"" ++ s ++ codes "\"")
      ≡ reader after s row rows
unfolding read_unit
read-quoted_cell s row rows q =
    foldl-append read_unit (reader quoted [] row rows) s (codes "\"")
    ∙ ap (λ (r : Reader). foldl read_unit r (codes "\"")) (read-quoted s [] row rows q)

plain-Ends :
    (f : Text) (row : List Text) (rows : List (List Text))
    → Ends (reader plain f row rows) (row ++ f ∷ []) rows
plain-Ends f row rows = record { outside_quotes = refl; row_read = refl; rows_read = refl }

read-cell :
    (v : Value) (row : List Text) (rows : List (List Text))
    → IsClean v
    → Ends (foldl read_unit (reader plain [] row rows) (cell v)) (row ++ shown v ∷ []) rows
read-cell null row rows h = plain-Ends [] row rows
read-cell undefined row rows h = plain-Ends [] row rows
read-cell (text s) row rows h = elim (Bool-cases (has_unit b',' s)) [
  | inl comma ↦
      rw (comma, read-quoted_cell s row rows h.0)
        (record { outside_quotes = refl; row_read = refl; rows_read = refl })
  | inr bare ↦ rw (bare, read-plain s [] row rows h.0 h.1 bare) (plain-Ends s row rows)
]
read-cell (number n) row rows h =
    rw
      (read-plain (show_number n) [] row rows (has_unit-show_number n _ (omega arith))
        (has_unit-show_number n _ (omega arith)) (has_unit-show_number n _ (omega arith)))
      (plain-Ends (show_number n) row rows)
read-cell (boolean true) row rows h =
    rw (read-plain (codes "true") [] row rows refl refl refl) (plain-Ends _ row rows)
read-cell (boolean false) row rows h =
    rw (read-plain (codes "false") [] row rows refl refl refl) (plain-Ends _ row rows)

read_unit-comma :
    (r : Reader) (row : List Text) (rows : List (List Text))
    → Ends r row rows
    → read_unit r b',' ≡ reader plain [] row rows
unfolding read_unit
read_unit-comma r row rows e = ground arith

read_unit-newline :
    (r : Reader) (row : List Text) (rows : List (List Text))
    → Ends r row rows
    → read_unit r 10 ≡ reader plain [] [] (rows ++ row ∷ [])
unfolding read_unit
read_unit-newline r row rows e = ground arith

-- The values of a row that can be read back: at least one, and all of them clean.
abbrev pub IsRow : List Value → Type 0
IsRow [] = ⊥
IsRow (v ∷ vs) = All IsClean (v ∷ vs)

abbrev pub row_text : List Value → Text
row_text vs = join (codes ",") (map cell vs)

read-row :
    (vs : List Value) (row : List Text) (rows : List (List Text))
    → IsRow vs
    → Ends (foldl read_unit (reader plain [] row rows) (row_text vs)) (row ++ map shown vs) rows
read-row [] row rows h = absurd h
read-row (v ∷ []) row rows h = read-cell v row rows h.0
read-row (v ∷ w ∷ vs) row rows h =
    let r : Reader = foldl read_unit (reader plain [] row rows) (cell v) in
    let e : Ends r (row ++ shown v ∷ []) rows = read-cell v row rows h.0 in
    let step : foldl read_unit (reader plain [] row rows) (row_text (v ∷ w ∷ vs))
        ≡ foldl read_unit (reader plain [] (row ++ shown v ∷ []) rows) (row_text (w ∷ vs)) =
      foldl-append read_unit (reader plain [] row rows) (cell v) (codes "," ++ row_text (w ∷ vs))
      ∙ ap (λ (q : Reader). foldl read_unit q (row_text (w ∷ vs))) (read_unit-comma r _ rows e) in
    rw (step, ← append_assoc row (shown v ∷ []) (map shown (w ∷ vs)))
      (read-row (w ∷ vs) (row ++ shown v ∷ []) rows h.1)

abbrev finish : Reader → List (List Text)
finish r = r.rows ++ (r.row ++ r.field ∷ []) ∷ []

read-rows :
    (vss : List (List Value)) (vs : List Value) (rows : List (List Text))
    → IsRow vs
    → All IsRow vss
    → finish
        (foldl read_unit (reader plain [] [] rows) (join (codes "\n") (map row_text (vs ∷ vss))))
      ≡ rows ++ map (map shown) (vs ∷ vss)
read-rows [] vs rows h hs = let e = read-row vs [] rows h in rw (e.row_read, e.rows_read)
read-rows (ws ∷ vss) vs rows h hs =
    let r : Reader = foldl read_unit (reader plain [] [] rows) (row_text vs) in
    let rest : Text = join (codes "\n") (map row_text (ws ∷ vss)) in
    let e : Ends r (map shown vs) rows = read-row vs [] rows h in
    let step : foldl read_unit (reader plain [] [] rows) (row_text vs ++ (codes "\n" ++ rest))
        ≡ foldl read_unit (reader plain [] [] (rows ++ map shown vs ∷ [])) rest =
      foldl-append read_unit (reader plain [] [] rows) (row_text vs) (codes "\n" ++ rest)
      ∙ ap (λ (q : Reader). foldl read_unit q rest) (read_unit-newline r _ rows e) in
    ap finish step
    ∙ read-rows vss ws (rows ++ map shown vs ∷ []) hs.0 hs.1
    ∙ append_assoc rows (map shown vs ∷ []) (map (map shown) (ws ∷ vss))

-- A column name without commas, quotes and line feeds is its own cell.
abbrev pub IsName : Text → Type 0
IsName s = (has_unit b',' s ≡ false) × (has_unit b'"' s ≡ false) × (has_unit 10 s ≡ false)

module _ {K : Type 0} (name : K → Text) where
  names-cells :
      (columns : List K)
      → All (λ col. IsName (name col)) columns
      → map cell (map (λ col. text (name col)) columns) ≡ map name columns
  names-cells [] h = refl
  names-cells (col ∷ columns) h = rw (h.0.0, names-cells columns h.1)

  names-IsClean :
      (columns : List K)
      → All (λ col. IsName (name col)) columns
      → All IsClean (map (λ col. text (name col)) columns)
  names-IsClean [] h = tt
  names-IsClean (col ∷ columns) h = ((h.0.1, h.0.2), names-IsClean columns h.1)

module _ {A K : Type 0} (name : K → Text) (get : A → K → Value) where
  -- The values of a row, by column.
  abbrev pub values : List K → A → List Value
  values columns item = map (get item) columns

  csv_row-row_text :
      (columns : List K) (item : A) → csv_row name get columns item ≡ row_text (values columns item)
  csv_row-row_text columns item = ap (join (codes ",")) (sym (map-map cell (get item) columns))

  csv_rows-row_text :
      (columns : List K) (items : List A)
      → map (csv_row name get columns) items ≡ map row_text (map (values columns) items)
  csv_rows-row_text columns [] = refl
  csv_rows-row_text columns (item ∷ items) =
      rw (csv_row-row_text columns item, csv_rows-row_text columns items)

  rows-IsRow :
      (col : K) (columns : List K) (items : List A)
      → All (λ item. All IsClean (values (col ∷ columns) item)) items
      → All IsRow (map (values (col ∷ columns)) items)
  rows-IsRow col columns [] h = tt
  rows-IsRow col columns (item ∷ items) h = (h.0, rows-IsRow col columns items h.1)

  -- A table with at least one column is read back by a CSV reader as the column names and, for each
  -- item, what its cells stand for, if no name has a comma, a quote or a line feed and no text value
  -- has a quote or a line feed. Text values may have commas.
  pub read_csv-to_csv :
      (col : K) (columns : List K) (items : List A)
      → All (λ c. IsName (name c)) (col ∷ columns)
      → All (λ item. All IsClean (values (col ∷ columns) item)) items
      → read_csv (to_csv name get items (col ∷ columns))
        ≡ map name (col ∷ columns) ∷ map (λ item. map shown (values (col ∷ columns) item)) items
  unfolding read_csv to_csv
  read_csv-to_csv col columns items names clean =
      let head : List Value = map (λ c. text (name c)) (col ∷ columns) in
      let header : row_text head ≡ join (codes ",") (map name (col ∷ columns)) =
        ap (join (codes ",")) (names-cells name (col ∷ columns) names) in
      rw (← header, csv_rows-row_text (col ∷ columns) items)
        (read-rows (map (values (col ∷ columns)) items) head []
            (names-IsClean name (col ∷ columns) names) (rows-IsRow col columns items clean)
          ∙ simp map-map)
