-- ===== src/Pages/Settings/Entries.antt =====
-- The entries of an input field of the access rules (web/src/pages/settings.tsx).
use mathlib.Core.List.{map-append}
use karadul.Base.{
  ℕ, ◌≡◌, refl, ap, ◌∙◌, ◌≢◌, false, List, [], ◌∷◌, ◌++◌, map, arith, filter, Text, codes, has_unit,
  All,
}
use karadul.Pages.Fields.{trim, onto_head, split, is_filled, entries, shown_entries}

-- An entry that the field can hold: some text without commas, and without white space at its ends.
abbrev pub IsEntry : Text → Type 0
IsEntry s = (has_unit b',' s ≡ false) × (s ≢ []) × (trim s ≡ s)

split_without : (s : Text) → has_unit b',' s ≡ false → split b',' s ≡ s ∷ []
split_without [] h = refl
split_without (x ∷ s) h = ground (arith, split_without s)

split-append :
    (s rest : Text) → has_unit b',' s ≡ false → split b',' (s ++ b',' ∷ rest) ≡ s ∷ split b',' rest
split-append [] rest h = refl
split-append (x ∷ s) rest h = ground (arith, split-append s rest)

-- A space in front of a text goes with the first entry's.
map-trim-onto_head :
    (parts : List Text) → parts ≢ [] → map trim (onto_head 32 parts) ≡ map trim parts
map-trim-onto_head [] h = absurd (h refl)
map-trim-onto_head (part ∷ parts) h = refl

onto_head-ne_nil : (x : ℕ) (parts : List Text) → onto_head x parts ≢ []
onto_head-ne_nil x [] e = cc
onto_head-ne_nil x (part ∷ parts) e = cc

split-ne_nil : (s : Text) → split b',' s ≢ []
split-ne_nil [] e = cc
split-ne_nil (x ∷ s) e = ground (arith, onto_head-ne_nil x (split b',' s))

entries-space : (s : Text) → entries (32 ∷ s) ≡ entries s
unfolding entries
entries-space s = ap (filter is_filled) (map-trim-onto_head (split b',' s) (split-ne_nil s))

entries-entry : (s rest : Text) → IsEntry s → entries (s ++ b',' ∷ rest) ≡ s ∷ entries rest
unfolding entries
entries-entry [] rest h = absurd (h.1 refl)
entries-entry (x ∷ s) rest h = rw (split-append (x ∷ s) rest h.0, h.2)

entries_one : (s : Text) → IsEntry s → entries s ≡ s ∷ []
unfolding entries
entries_one [] h = absurd (h.1 refl)
entries_one (x ∷ s) h = rw (split_without (x ∷ s) h.0, h.2)

-- What the field shows of a list of entries, each without commas and outer white space and none
-- empty, is read back as the same list.
pub entries-shown_entries :
    (items : List Text) → All IsEntry items → entries (shown_entries items) ≡ items
unfolding entries
entries-shown_entries [] h = refl
entries-shown_entries (x ∷ []) h = entries_one x h.0
entries-shown_entries (x ∷ y ∷ items) h =
    entries-entry x (32 ∷ shown_entries (y ∷ items)) h.0
    ∙ ap (x ∷◌) (entries-space (shown_entries (y ∷ items)) ∙ entries-shown_entries (y ∷ items) h.1)

onto_head-append :
    (x : ℕ) (parts more : List Text)
    → parts ≢ []
    → onto_head x (parts ++ more) ≡ onto_head x parts ++ more
onto_head-append x [] more h = absurd (h refl)
onto_head-append x (part ∷ parts) more h = refl

split-comma : (s : Text) → split b',' (s ++ codes ",") ≡ split b',' s ++ [] ∷ []
split-comma [] = refl
split-comma (x ∷ s) =
    ground (arith, split-comma s, onto_head-append x (split b',' s) ([] ∷ []) (split-ne_nil s))

filter-is_filled_empty :
    (parts : List Text) → filter is_filled (parts ++ [] ∷ []) ≡ filter is_filled parts
filter-is_filled_empty [] = refl
filter-is_filled_empty (part ∷ parts) = ground (arith, filter-is_filled_empty parts)

-- A comma that is typed at the end of a field's text, the next entry to come, is read as nothing:
-- the field shows the text without it again.
pub entries-comma :
    (value : Text) → shown_entries (entries (value ++ codes ",")) ≡ shown_entries (entries value)
unfolding entries
entries-comma value = ap shown_entries (
    ap (λ (parts : List Text). filter is_filled (map trim parts)) (split-comma value)
    ∙ ap (filter is_filled) (map-append trim (split b',' value) ([] ∷ []))
    ∙ filter-is_filled_empty (map trim (split b',' value)))
