-- ===== src/Json/Reader.antt =====
-- A reader of JSON (RFC 8259) for the values that web/src/lib/api.ts and web/src/lib/export.ts print:
-- numbers are whole, and there is no null.
use karadul.Base.{
  ℕ, zero, suc, ◌+◌, ◌-◌, ◌*◌, Bool, true, false, ◌||◌, Option, none, some, [], ◌∷◌, ◌==◌,
  if◌then◌else◌, length, drop, Text, codes, starts_with, parse_int, is_digit, ℤ, pos, negate,
}
use karadul.Json.{
  JsonValue, string, number, boolean, array, object, JsonItems, empty_array, item, JsonFields,
  empty_object, field,
}

abbrev is_space : ℕ → Bool
is_space c = c == 32 || c == 10 || c == 13 || c == 9

abbrev pub skip_space : Text → Text
skip_space [] = []
skip_space (c ∷ s) = let rest = skip_space s in if is_space c then rest else c ∷ s

-- The state inside a quoted text: between units, after a reverse solidus, and after so many digits of a
-- unit written by its number.
pub data Mode : Type 0 where
  plain escaped : Mode
  hex : ℕ → ℕ → Mode

abbrev pub hex_value : ℕ → ℕ
hex_value c = if is_digit c then c - 48 else c - 87

abbrev pub unescape : ℕ → ℕ
unescape c =
    if c == b'b'
    then 8
    else if c == b'f'
    then 12
    else if c == b'n'
    then 10
    else if c == b'r'
    then 13
    else if c == b't'
    then 9
    else c

abbrev pub onto : ℕ → Option (Text × Text) → Option (Text × Text)
onto c none = none
onto c (some (s, rest)) = some (c ∷ s, rest)

-- The quoted text that goes on, and what stands after its end.
abbrev pub scan : Mode → Text → Option (Text × Text)
scan mode [] = none
scan plain (c ∷ s) =
    let after_escape = scan escaped s in
    let after_unit = onto c (scan plain s) in
    if c == b'"' then some ([], s) else if c == 92 then after_escape else after_unit
scan escaped (c ∷ s) =
    let after_number = scan (hex 3 0) s in
    let after_unit = onto (unescape c) (scan plain s) in
    if c == b'u' then after_number else after_unit
scan (hex zero value) (c ∷ s) = onto (16 * value + hex_value c) (scan plain s)
scan (hex (suc left) value) (c ∷ s) = scan (hex left (16 * value + hex_value c)) s

-- The digits at the front.
abbrev pub take_digits : Text → Text × Text
take_digits [] = ([], [])
take_digits (c ∷ s) =
    let (digits, rest) = take_digits s in if is_digit c then (c ∷ digits, rest) else ([], c ∷ s)

abbrev pub read_number : Text → ℤ × Text
read_number [] = (pos 0, [])
read_number (c ∷ s) =
    if c == b'-'
    then (let (digits, rest) = take_digits s in (negate (parse_int digits), rest))
    else (let (digits, rest) = take_digits (c ∷ s) in (pos (parse_int digits), rest))

-- How a value begins, with what stands after the first sign.
pub data Start : Type 0 where
  quote bracket brace numeral : Text → Start
  truth : Bool → Text → Start
  other : Start

abbrev pub start_of : Text → Start
start_of [] = other
start_of (c ∷ s) =
    if c == b'"'
    then quote s
    else if c == b'['
    then bracket s
    else if c == b'{'
    then brace s
    else if starts_with (c ∷ s) (codes "true")
    then truth true (drop 3 s)
    else if starts_with (c ∷ s) (codes "false")
    then truth false (drop 4 s)
    else if c == b'-' || is_digit c
    then numeral (c ∷ s)
    else other

-- What stands between two elements, or after the last.
pub data Sign : Type 0 where
  ends goes_on : Text → Sign
  neither : Sign

abbrev pub sign_of : ℕ → Text → Sign
sign_of close [] = neither
sign_of close (c ∷ s) = if c == close then ends s else if c == b',' then goes_on s else neither

abbrev pub after_colon : Text → Option Text
after_colon [] = none
after_colon (c ∷ s) = if c == b':' then some s else none

-- The name of a field, up to its value.
abbrev pub read_name : Text → Option (Text × Text)
read_name s = elim (start_of (skip_space s)) [
  | quote t ↦ elim (scan plain t) [
    | some (name, r) ↦ elim (after_colon (skip_space r)) [
      | some value ↦ some (name, value)
      | none ↦ none
    ]
    | none ↦ none
  ]
  | _ ↦ none
]

-- The fuel bounds how many values, signs and names are read.
unfoldable mutual
  pub read_value : ℕ → Text → Option (JsonValue × Text)
  read_value zero s = none
  read_value (suc n) s = elim (start_of (skip_space s)) [
    | quote t ↦ elim (scan plain t) [ some (text, r) ↦ some (string text, r) | none ↦ none ]
    | bracket t ↦ elim (sign_of b']' (skip_space t)) [
      | ends r ↦ some (array empty_array, r)
      | _ ↦ elim (read_value n t) [
        | some (v, r) ↦ elim (read_items n r) [
          | some (items, r') ↦ some (array (item v items), r')
          | none ↦ none
        ]
        | none ↦ none
      ]
    ]
    | brace t ↦ elim (sign_of b'}' (skip_space t)) [
      | ends r ↦ some (object empty_object, r)
      | _ ↦ elim (read_name t) [
        | some (name, value) ↦ elim (read_value n value) [
          | some (v, r) ↦ elim (read_fields n r) [
            | some (fields, r') ↦ some (object (field name v fields), r')
            | none ↦ none
          ]
          | none ↦ none
        ]
        | none ↦ none
      ]
    ]
    | truth b r ↦ some (boolean b, r)
    | numeral t ↦ some (number (read_number t).0, (read_number t).1)
    | other ↦ none
  ]

  pub read_items : ℕ → Text → Option (JsonItems × Text)
  read_items zero s = none
  read_items (suc n) s = elim (sign_of b']' (skip_space s)) [
    | ends r ↦ some (empty_array, r)
    | goes_on t ↦ elim (read_value n t) [
      | some (v, r) ↦ elim (read_items n r) [
        | some (items, r') ↦ some (item v items, r')
        | none ↦ none
      ]
      | none ↦ none
    ]
    | neither ↦ none
  ]

  pub read_fields : ℕ → Text → Option (JsonFields × Text)
  read_fields zero s = none
  read_fields (suc n) s = elim (sign_of b'}' (skip_space s)) [
    | ends r ↦ some (empty_object, r)
    | goes_on t ↦ elim (read_name t) [
      | some (name, value) ↦ elim (read_value n value) [
        | some (v, r) ↦ elim (read_fields n r) [
          | some (fields, r') ↦ some (field name v fields, r')
          | none ↦ none
        ]
        | none ↦ none
      ]
      | none ↦ none
    ]
    | neither ↦ none
  ]

abbrev whole : Option (JsonValue × Text) → Option JsonValue
whole (some (v, [])) = some v
whole _ = none

-- A text that is one value. Its length is fuel enough.
unfoldable pub read_json : Text → Option JsonValue
unfolding read_value
read_json s = whole (read_value (length s) s)
