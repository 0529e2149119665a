-- ===== src/Json/Weight.antt =====
-- How much fuel a reader needs for what `JSON.stringify` prints for web/src/lib/api.ts and
-- web/src/lib/export.ts.
use karadul.Base.{
  ℕ, zero, suc, ◌+◌, ◌*◌, ◌≤◌, ◌<◌, refl, true, false, [], ◌∷◌, arith, length, length-append, Text,
  show_number, IsDigits, show_number-IsDigits, ℤ, pos, negsuc, show_integer,
}
use karadul.Json.{
  JsonValue, string, number, boolean, array, object, JsonItems, empty_array, item, JsonFields,
  empty_object, field, escape, escape_all, quoted, spaces, new_line, colon, print, print_items,
  print_fields,
}

-- How many values and ends a value has, which is the fuel that the reader needs.
unfoldable mutual
  pub weight : JsonValue → ℕ
  weight (string s) = 1
  weight (number n) = 1
  weight (boolean b) = 1
  weight (array empty_array) = 1
  weight (array (item v items)) = suc (weight v + weight_items items)
  weight (object empty_object) = 1
  weight (object (field name v fields)) = suc (weight v + weight_fields fields)

  pub weight_items : JsonItems → ℕ
  weight_items empty_array = 1
  weight_items (item v items) = suc (weight v + weight_items items)

  pub weight_fields : JsonFields → ℕ
  weight_fields empty_object = 1
  weight_fields (field name v fields) = suc (weight v + weight_fields fields)

pub weight-pos : (v : JsonValue) → weight v ≤ 0 → ⊥
unfolding weight
weight-pos (string s) h = omega arith
weight-pos (number n) h = omega arith
weight-pos (boolean b) h = omega arith
weight-pos (array empty_array) h = omega arith
weight-pos (array (item v items)) h = omega arith
weight-pos (object empty_object) h = omega arith
weight-pos (object (field name v fields)) h = omega arith

pub weight_items-pos : (items : JsonItems) → weight_items items ≤ 0 → ⊥
unfolding weight
weight_items-pos empty_array h = omega arith
weight_items-pos (item v items) h = omega arith

pub weight_fields-pos : (fields : JsonFields) → weight_fields fields ≤ 0 → ⊥
unfolding weight
weight_fields-pos empty_object h = omega arith
weight_fields-pos (field name v fields) h = omega arith

-- A printed value is at least as long as its weight.
length-escape_all : (s rest : Text) → length rest ≤ length (escape_all s rest)
length-escape_all [] rest = omega arith
length-escape_all (c ∷ s) rest =
    omega (arith, length-append (escape c) (escape_all s rest), length-escape_all s rest)

length-spaces : (n : ℕ) (s : Text) → length s ≤ length (spaces n s)
length-spaces zero s = omega arith
length-spaces (suc n) s = omega (arith, length-spaces n s)

length-new_line : (gap level : ℕ) (s : Text) → length s ≤ length (new_line gap level s)
length-new_line zero level s = omega arith
length-new_line (suc gap) level s = omega (arith, length-spaces (suc gap * level) s)

length-colon : (gap : ℕ) (s : Text) → length s ≤ length (colon gap s)
length-colon zero s = omega arith
length-colon (suc gap) s = omega arith

length-quoted : (s rest : Text) → suc (length rest) ≤ length (quoted s rest)
length-quoted s rest = omega (arith, length-escape_all s (b'"' ∷ rest))

length-digits : (digits : Text) → IsDigits digits → 0 < length digits
length-digits [] d = absurd (d.0 refl)
length-digits (c ∷ s) d = omega arith

length-show_integer : (n : ℤ) → 0 < length (show_integer n)
length-show_integer (pos n) = length-digits (show_number n) (show_number-IsDigits n)
length-show_integer (negsuc n) = omega arith

mutual
  unfolding print weight

  pub length-print :
      (gap level : ℕ) (v : JsonValue) (rest : Text)
      → weight v + length rest ≤ length (print gap level v rest)
  length-print gap level (string s) rest = omega (arith, length-quoted s rest)
  length-print gap level (number n) rest =
      omega (arith, length-append (show_integer n) rest, length-show_integer n)
  length-print gap level (boolean true) rest = omega arith
  length-print gap level (boolean false) rest = omega arith
  length-print gap level (array empty_array) rest = omega arith
  length-print gap level (array (item v items)) rest =
      let end = new_line gap level (b']' ∷ rest) in
      let tail = print_items gap (suc level) items end in
      omega (
        arith,
        length-new_line gap (suc level) (print gap (suc level) v tail),
        length-print gap (suc level) v tail,
        length-print_items gap (suc level) items end,
        length-new_line gap level (b']' ∷ rest),
      )
  length-print gap level (object empty_object) rest = omega arith
  length-print gap level (object (field name v fields)) rest =
      let end = new_line gap level (b'}' ∷ rest) in
      let tail = print_fields gap (suc level) fields end in
      let inner = print gap (suc level) v tail in
      omega (
        arith,
        length-new_line gap (suc level) (quoted name (colon gap inner)),
        length-quoted name (colon gap inner),
        length-colon gap inner,
        length-print gap (suc level) v tail,
        length-print_fields gap (suc level) fields end,
        length-new_line gap level (b'}' ∷ rest),
      )

  length-print_items :
      (gap level : ℕ) (items : JsonItems) (rest : Text)
      → weight_items items + length rest ≤ suc (length (print_items gap level items rest))
  length-print_items gap level empty_array rest = omega arith
  length-print_items gap level (item v items) rest =
      let tail = print_items gap level items rest in
      omega (
        arith,
        length-new_line gap level (print gap level v tail),
        length-print gap level v tail,
        length-print_items gap level items rest,
      )

  length-print_fields :
      (gap level : ℕ) (fields : JsonFields) (rest : Text)
      → weight_fields fields + length rest ≤ suc (length (print_fields gap level fields rest))
  length-print_fields gap level empty_object rest = omega arith
  length-print_fields gap level (field name v fields) rest =
      let tail = print_fields gap level fields rest in
      let inner = print gap level v tail in
      omega (
        arith,
        length-new_line gap level (quoted name (colon gap inner)),
        length-quoted name (colon gap inner),
        length-colon gap inner,
        length-print gap level v tail,
        length-print_fields gap level fields rest,
      )
