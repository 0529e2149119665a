-- ===== src/Pages/Fields.antt =====
-- The input fields of web/src/pages/settings.tsx that hold a list of entries.
use karadul.Base.{
  ℕ, Bool, true, false, ◌&&◌, ◌||◌, Option, none, some, List, [], ◌∷◌, map, leb, ◌==◌,
  if◌then◌else◌, filter, Text, codes, join,
}

-- White space for `trim()`, as ECMAScript lists it.
abbrev pub is_space : ℕ → Bool
is_space c =
    leb 9 c && leb c 13
    || (c == 32
        || (c == 160
            || (c == 0x1680
                || (leb 0x2000 c && leb c 0x200a
                    || (c == 0x2028
                        || (c == 0x2029
                            || (c == 0x202f || (c == 0x205f || (c == 0x3000 || c == 0xfeff)))))))))

abbrev pub trim_start : Text → Text
trim_start [] = []
trim_start (c ∷ s) = let rest = trim_start s in if is_space c then rest else c ∷ s

-- A unit in front of a text without white space at its end.
abbrev pub before_end : ℕ → Text → Text
before_end c [] = if is_space c then [] else c ∷ []
before_end c (d ∷ rest) = c ∷ d ∷ rest

abbrev pub trim_end : Text → Text
trim_end [] = []
trim_end (c ∷ s) = before_end c (trim_end s)

abbrev pub trim : Text → Text
trim s = trim_end (trim_start s)

-- `s.split(c)` for one code unit
abbrev pub onto_head : ℕ → List Text → List Text
onto_head x [] = (x ∷ []) ∷ []
onto_head x (part ∷ parts) = (x ∷ part) ∷ parts

abbrev pub split : ℕ → Text → List Text
split c [] = [] ∷ []
split c (x ∷ s) = let parts = split c s in if x == c then [] ∷ parts else onto_head x parts

abbrev pub is_filled : Text → Bool
is_filled [] = false
is_filled (c ∷ s) = true

-- `value.split(",").map((s) => s.trim()).filter(Boolean)`: the entries that an input field holds.
unfoldable pub entries : Text → List Text
entries value = filter is_filled (map trim (split b',' value))

-- `items.join(", ")`: what the field then shows.
abbrev pub shown_entries : List Text → Text
shown_entries = join (codes ", ")

abbrev pub ports_entries : Text → Option (List Text)
ports_entries [] = none
ports_entries (c ∷ value) = some (entries (c ∷ value))

-- `rule.ports?.join(", ") || ""`
abbrev pub shown_ports : Option (List Text) → Text
shown_ports none = []
shown_ports (some ports) = shown_entries ports
