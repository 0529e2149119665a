-- ===== src/Csv/Collisions.antt =====
-- Values that the export of web/src/lib/export.ts does not keep apart.
use karadul.Base.{◌≡◌, true, false, [], ◌∷◌, ◌++◌, arith, Text, codes, has_unit, has_unit-append}
use mathlib.Core.List.{append_assoc}
use karadul.Csv.RoundTrip.{row_text}
use karadul.Csv.{to_csv, text}

module _ {K : Type 0} (name : K → Text) (col : K) where
  -- With one column of texts, a text that holds a line feed is written as the two rows of its parts:
  -- the table with the one item and the table with the two have the same CSV, if no part has a comma.
  pub to_csv-line_feed :
      (s t : Text)
      → has_unit b',' s ≡ false
      → has_unit b',' t ≡ false
      → to_csv name (λ (v : Text) c. text v) ((s ++ 10 ∷ t) ∷ []) (col ∷ [])
        ≡ to_csv name (λ (v : Text) c. text v) (s ∷ t ∷ []) (col ∷ [])
  unfolding to_csv
  to_csv-line_feed s t hs ht =
      let whole : has_unit b',' (s ++ 10 ∷ t) ≡ false =
        ground (arith, has_unit-append b',' s (10 ∷ t)) in
      rw (hs, ht, whole)

-- Quotes in a text are not escaped: where `s` and `t` each have a comma, the row of the one cell that
-- holds `s`, a quote, a comma, a quote and `t` is written as the row of the two cells `s` and `t`.
pub csv_row-quote :
    (s t : Text)
    → has_unit b',' s ≡ true
    → has_unit b',' t ≡ true
    → row_text (text (s ++ (codes "\",\"" ++ t)) ∷ []) ≡ row_text (text s ∷ text t ∷ [])
csv_row-quote s t hs ht =
    let whole : has_unit b',' (s ++ (codes "\",\"" ++ t)) ≡ true =
      ground (arith, has_unit-append b',' s (codes "\",\"" ++ t)) in
    rw (hs, ht, whole) (simp append_assoc)
