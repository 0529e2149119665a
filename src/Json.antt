-- ===== src/Json.antt =====
-- `JSON.stringify` on the values that web/src/lib/api.ts sends and web/src/lib/export.ts writes to a
-- file: texts, whole numbers, Booleans, arrays and objects. A whole number is printed in digits;
-- from 10 ^ 21 on, beyond what JavaScript counts exactly, the language would write an exponent.
pub mod Reader
pub mod Strings
pub mod Weight
pub mod RoundTrip
pub mod Fields
use karadul.Base.{
  ℕ, zero, suc, ◌+◌, ◌*◌, ◌/◌, ◌%◌, min, Bool, true, false, not, Option, none, some, List, [], ◌∷◌,
  ◌++◌, ltb, ◌==◌, if◌then◌else◌, Text, codes, ℤ, show_integer,
}

mutual
  pub data JsonValue : Type 0 where
    string : Text → JsonValue
    number : ℤ → JsonValue
    boolean : Bool → JsonValue
    array : JsonItems → JsonValue
    object : JsonFields → JsonValue

  pub data JsonItems : Type 0 where
    empty_array : JsonItems
    item : JsonValue → JsonItems → JsonItems

  pub data JsonFields : Type 0 where
    empty_object : JsonFields
    field : Text → JsonValue → JsonFields → JsonFields

-- A hexadecimal digit in lower case.
abbrev pub hex_digit : ℕ → ℕ
hex_digit n = if ltb n 10 then 48 + n else 87 + n

-- A unit inside a quoted text. Lone surrogates are not told apart.
abbrev pub escape : ℕ → Text
escape c =
    if c == b'"'
    then codes "\\\""
    else if c == 92
    then codes "\\\\"
    else if c == 8
    then codes "\\b"
    else if c == 12
    then codes "\\f"
    else if c == 10
    then codes "\\n"
    else if c == 13
    then codes "\\r"
    else if c == 9
    then codes "\\t"
    else if ltb c 32
    then codes "\\u00" ++ hex_digit (c / 16) ∷ hex_digit (c % 16) ∷ []
    else c ∷ []

-- What is printed stands before a given rest.
abbrev pub escape_all : Text → Text → Text
escape_all [] rest = rest
escape_all (c ∷ s) rest = escape c ++ escape_all s rest

abbrev pub quoted : Text → Text → Text
quoted s rest = b'"' ∷ escape_all s (b'"' ∷ rest)

abbrev pub spaces : ℕ → Text → Text
spaces zero rest = rest
spaces (suc n) rest = 32 ∷ spaces n rest

-- A new line at a depth, when there is an indent.
abbrev pub new_line : ℕ → ℕ → Text → Text
new_line zero level rest = rest
new_line (suc gap) level rest = 10 ∷ spaces (suc gap * level) rest

abbrev pub colon : ℕ → Text → Text
colon zero rest = b':' ∷ rest
colon (suc gap) rest = b':' ∷ 32 ∷ rest

-- A value at a depth, where `gap` is the indent.
mutual
  pub print : ℕ → ℕ → JsonValue → Text → Text
  print gap level (string s) rest = quoted s rest
  print gap level (number n) rest = show_integer n ++ rest
  print gap level (boolean true) rest = codes "true" ++ rest
  print gap level (boolean false) rest = codes "false" ++ rest
  print gap level (array empty_array) rest = codes "[]" ++ rest
  print gap level (array (item v items)) rest =
      b'['
      ∷ new_line gap (suc level) (
          print gap (suc level) v
            (print_items gap (suc level) items (new_line gap level (b']' ∷ rest))))
  print gap level (object empty_object) rest = codes "{}" ++ rest
  print gap level (object (field name v fields)) rest =
      b'{'
      ∷ new_line gap (suc level) (
          quoted name (
            colon gap (
              print gap (suc level) v
                (print_fields gap (suc level) fields (new_line gap level (b'}' ∷ rest))))))

  pub print_items : ℕ → ℕ → JsonItems → Text → Text
  print_items gap level empty_array rest = rest
  print_items gap level (item v items) rest =
      b',' ∷ new_line gap level (print gap level v (print_items gap level items rest))

  pub print_fields : ℕ → ℕ → JsonFields → Text → Text
  print_fields gap level empty_object rest = rest
  print_fields gap level (field name v fields) rest =
      b','
      ∷ new_line gap level
          (quoted name (colon gap (print gap level v (print_fields gap level fields rest))))

-- `JSON.stringify(value, null, gap)`, and without an indent where `gap` is 0. An indent above 10 counts
-- as 10.
unfoldable pub stringify : ℕ → JsonValue → Text
unfolding print
stringify gap v = print (min gap 10) 0 v []

-- The values of an array, and of an object; a field that is `undefined` is left out.
abbrev pub items_of : List JsonValue → JsonItems
items_of [] = empty_array
items_of (v ∷ values) = item v (items_of values)

abbrev pub fields_of : List (Text × Option JsonValue) → JsonFields
fields_of [] = empty_object
fields_of ((name, none) ∷ fields) = fields_of fields
fields_of ((name, some v) ∷ fields) = field name v (fields_of fields)
