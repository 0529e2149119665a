-- ===== src/Json/RoundTrip.antt =====
-- What `JSON.stringify` prints for web/src/lib/api.ts and web/src/lib/export.ts, read back.
use karadul.Base.{
  ℕ, zero, suc, ◌≤◌, min, ◌≡◌, refl, true, false, some, [], ◌∷◌, arith, length, Text,
}
use karadul.Json.{
  JsonValue, string, number, boolean, array, object, JsonItems, empty_array, item, JsonFields,
  empty_object, field, quoted, new_line, colon, print, print_items, print_fields, stringify,
}
use karadul.Json.Reader.{
  skip_space, sign_of, neither, read_name, read_value, read_items, read_fields, read_json,
}
use karadul.Json.Weight.{
  weight, weight_items, weight_fields, weight-pos, weight_items-pos, weight_fields-pos,
  length-print,
}
use karadul.Json.Strings.{
  no_digit, scan-escape_all, skip_space-new_line, read_number-show_integer, start_of-show_integer,
  sign_of-show_integer, indented, read_name-quoted, skip_space-indented,
}

-- Space before a value or a sign is passed over.
read_value-new_line :
    (n gap level : ℕ) (s : Text) → read_value n (new_line gap level s) ≡ read_value n s
unfolding read_value
read_value-new_line zero gap level s = refl
read_value-new_line (suc n) gap level s = rw (read_value, skip_space-new_line gap level s) refl

read_value-indented : (n gap : ℕ) (s : Text) → read_value n (indented gap s) ≡ read_value n s
unfolding read_value
read_value-indented zero gap s = refl
read_value-indented (suc n) gap s = rw (read_value, skip_space-indented gap s) refl

read_name-new_line : (gap level : ℕ) (s : Text) → read_name (new_line gap level s) ≡ read_name s
read_name-new_line gap level s = rw (read_name, skip_space-new_line gap level s) refl

read_items-new_line :
    (n gap level : ℕ) (s : Text) → read_items n (new_line gap level s) ≡ read_items n s
unfolding read_items
read_items-new_line zero gap level s = refl
read_items-new_line (suc n) gap level s = rw (read_items, skip_space-new_line gap level s) refl

read_fields-new_line :
    (n gap level : ℕ) (s : Text) → read_fields n (new_line gap level s) ≡ read_fields n s
unfolding read_fields
read_fields-new_line zero gap level s = refl
read_fields-new_line (suc n) gap level s = rw (read_fields, skip_space-new_line gap level s) refl

no_digit-new_line :
    (gap level : ℕ) (s : Text) → no_digit s ≡ true → no_digit (new_line gap level s) ≡ true
no_digit-new_line zero level s h = h
no_digit-new_line (suc gap) level s h = refl

no_digit-print_items :
    (gap level : ℕ) (items : JsonItems) (s : Text)
    → no_digit s ≡ true
    → no_digit (print_items gap level items s) ≡ true
unfolding print_items
no_digit-print_items gap level empty_array s h = h
no_digit-print_items gap level (item v items) s h = refl

no_digit-print_fields :
    (gap level : ℕ) (fields : JsonFields) (s : Text)
    → no_digit s ≡ true
    → no_digit (print_fields gap level fields s) ≡ true
unfolding print_fields
no_digit-print_fields gap level empty_object s h = h
no_digit-print_fields gap level (field name v fields) s h = refl

-- A printed value does not begin with the end of an array.
sign_of-print :
    (gap level : ℕ) (v : JsonValue) (rest : Text)
    → sign_of b']' (skip_space (print gap level v rest)) ≡ neither
unfolding print
sign_of-print gap level (string s) rest = refl
sign_of-print gap level (number n) rest = sign_of-show_integer n rest
sign_of-print gap level (boolean true) rest = refl
sign_of-print gap level (boolean false) rest = refl
sign_of-print gap level (array empty_array) rest = refl
sign_of-print gap level (array (item v items)) rest = refl
sign_of-print gap level (object empty_object) rest = refl
sign_of-print gap level (object (field name v fields)) rest = refl

module _ (gap : ℕ) where
  mutual
    unfolding print read_value read_items read_fields weight

    read_value-print :
        (n level : ℕ) (v : JsonValue) (rest : Text)
        → weight v ≤ n
        → no_digit rest ≡ true
        → read_value n (print gap level v rest) ≡ some (v, rest)
    read_value-print zero level v rest h e = absurd (weight-pos v h)
    read_value-print (suc n) level (string s) rest h e =
        rw (read_value, scan-escape_all s rest) refl
    read_value-print (suc n) level (number i) rest h e =
        rw (read_value, start_of-show_integer i rest, read_number-show_integer i rest e) refl
    read_value-print (suc n) level (boolean true) rest h e = refl
    read_value-print (suc n) level (boolean false) rest h e = refl
    read_value-print (suc n) level (array empty_array) rest h e = refl
    read_value-print (suc n) level (array (item v items)) rest h e =
        let tail = print_items gap (suc level) items (new_line gap level (b']' ∷ rest)) in
        let inner = print gap (suc level) v tail in
        rw
          (
            read_value,
            skip_space-new_line gap (suc level) inner,
            sign_of-print gap (suc level) v tail,
            read_value-new_line n gap (suc level) inner,
            read_value-print n (suc level) v tail (omega (arith, h)) (
                no_digit-print_items gap (suc level) items _
                  (no_digit-new_line gap level (b']' ∷ rest) refl)),
            read_items-print n (suc level) level items rest (omega (arith, h)),
          )
          refl
    read_value-print (suc n) level (object empty_object) rest h e = refl
    read_value-print (suc n) level (object (field name v fields)) rest h e =
        let tail = print_fields gap (suc level) fields (new_line gap level (b'}' ∷ rest)) in
        let inner = print gap (suc level) v tail in
        rw
          (
            read_value,
            skip_space-new_line gap (suc level) (quoted name (colon gap inner)),
            read_name-new_line gap (suc level) (quoted name (colon gap inner)),
            read_name-quoted gap name inner,
            read_value-indented n gap inner,
            read_value-print n (suc level) v tail (omega (arith, h)) (
                no_digit-print_fields gap (suc level) fields _
                  (no_digit-new_line gap level (b'}' ∷ rest) refl)),
            read_fields-print n (suc level) level fields rest (omega (arith, h)),
          )
          refl

    read_items-print :
        (n level outer : ℕ) (items : JsonItems) (rest : Text)
        → weight_items items ≤ n
        → read_items n (print_items gap level items (new_line gap outer (b']' ∷ rest)))
          ≡ some (items, rest)
    read_items-print zero level outer items rest h = absurd (weight_items-pos items h)
    read_items-print (suc n) level outer empty_array rest h =
        rw (read_items, skip_space-new_line gap outer (b']' ∷ rest)) refl
    read_items-print (suc n) level outer (item v items) rest h =
        let tail = print_items gap level items (new_line gap outer (b']' ∷ rest)) in
        rw
          (
            read_items,
            read_value-new_line n gap level (print gap level v tail),
            read_value-print n level v tail (omega (arith, h)) (
                no_digit-print_items gap level items _
                  (no_digit-new_line gap outer (b']' ∷ rest) refl)),
            read_items-print n level outer items rest (omega (arith, h)),
          )
          refl

    read_fields-print :
        (n level outer : ℕ) (fields : JsonFields) (rest : Text)
        → weight_fields fields ≤ n
        → read_fields n (print_fields gap level fields (new_line gap outer (b'}' ∷ rest)))
          ≡ some (fields, rest)
    read_fields-print zero level outer fields rest h = absurd (weight_fields-pos fields h)
    read_fields-print (suc n) level outer empty_object rest h =
        rw (read_fields, skip_space-new_line gap outer (b'}' ∷ rest)) refl
    read_fields-print (suc n) level outer (field name v fields) rest h =
        let tail = print_fields gap level fields (new_line gap outer (b'}' ∷ rest)) in
        let inner = print gap level v tail in
        rw
          (
            read_fields,
            read_name-new_line gap level (quoted name (colon gap inner)),
            read_name-quoted gap name inner,
            read_value-indented n gap inner,
            read_value-print n level v tail (omega (arith, h)) (
                no_digit-print_fields gap level fields _
                  (no_digit-new_line gap outer (b'}' ∷ rest) refl)),
            read_fields-print n level outer fields rest (omega (arith, h)),
          )
          refl

-- What is printed, with an indent or without one, is read back by a reader of JSON as the value that was
-- printed; the length of the text is fuel enough for the reader.
pub read_json-stringify : (gap : ℕ) (v : JsonValue) → read_json (stringify gap v) ≡ some v
unfolding read_json stringify
read_json-stringify gap v =
    let g = min gap 10 in
    let enough : weight v ≤ length (print g 0 v []) = omega (arith, length-print g 0 v []) in
    rw (read_value-print g (length (print g 0 v [])) 0 v [] enough refl) refl
