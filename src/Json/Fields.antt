-- ===== src/Json/Fields.antt =====
-- The fields of a JSON object by their names, for the objects of web/src/lib/api.ts and
-- web/src/lib/export.ts.
use karadul.Base.{
  ℕ, ◌≡◌, refl, Bool, Option, none, some, List, [], ◌∷◌, map, arith, if◌then◌else◌, Text, text_eq,
  pos,
}
use karadul.Json.{
  JsonValue, string, number, boolean, array, object, JsonItems, empty_array, item, JsonFields,
  empty_object, field, items_of, fields_of,
}

-- The values of a text, a list of texts, a number and what may be missing.
abbrev pub texts_json : List Text → JsonValue
texts_json texts = array (items_of (map string texts))

abbrev pub optional {ℓ} : {A : Type ℓ} → (A → JsonValue) → Option A → Option JsonValue
optional json none = none
optional json (some a) = some (json a)

-- `object[name]`
abbrev pub field_of : Text → JsonFields → Option JsonValue
field_of name empty_object = none
field_of name (field other v fields) =
    let rest = field_of name fields in if text_eq other name then some v else rest

abbrev pub or_later : Option JsonValue → Option JsonValue → Option JsonValue
or_later none later = later
or_later (some v) later = some v

-- The same, before the fields that are `undefined` are left out.
abbrev pub given : Text → List (Text × Option JsonValue) → Option JsonValue
given name [] = none
given name ((other, v) ∷ fields) =
    let rest = given name fields in if text_eq other name then or_later v rest else rest

pub field_of-fields_of :
    (name : Text) (fields : List (Text × Option JsonValue))
    → field_of name (fields_of fields) ≡ given name fields
field_of-fields_of name [] = refl
field_of-fields_of name ((other, none) ∷ fields) = ground (arith, field_of-fields_of name fields)
field_of-fields_of name ((other, some v) ∷ fields) = rw (field_of-fields_of name fields) refl

pub or_later-none : (v : Option JsonValue) → or_later v none ≡ v
or_later-none none = refl
or_later-none (some v) = refl

-- Values read as what they stand for.
abbrev pub as_text : JsonValue → Option Text
as_text (string s) = some s
as_text _ = none

abbrev pub as_number : JsonValue → Option ℕ
as_number (number (pos n)) = some n
as_number _ = none

abbrev pub as_boolean : JsonValue → Option Bool
as_boolean (boolean b) = some b
as_boolean _ = none

-- A value of which one part after another is read, and fails with the first that fails.
infixl 4 ◌<*>◌
abbrev pub ◌<*>◌ : {A B : Type 0} → Option (A → B) → Option A → Option B
none <*> a = none
some f <*> none = none
some f <*> some a = some (f a)

-- Each part can be read, and so can the whole.
infixl 4 ◌<&>◌
pub ◌<&>◌ :
    {A B : Type 0} {f : Option (A → B)} {a : Option A} {g : A → B} {x : A}
    → f ≡ some g
    → a ≡ some x
    → (f <*> a) ≡ some (g x)
h <&> k = rw (h, k) refl

module _ {A : Type 0} (read : JsonValue → Option A) where
  abbrev pub all_items : JsonItems → Option (List A)
  all_items empty_array = some []
  all_items (item v items) = some (λ x xs. x ∷ xs) <*> read v <*> all_items items

  abbrev pub as_list : JsonValue → Option (List A)
  as_list (array items) = all_items items
  as_list _ = none

  abbrev pub required : Option JsonValue → Option A
  required none = none
  required (some v) = read v

  -- A field that may be missing.
  abbrev pub if_present : Option JsonValue → Option (Option A)
  if_present none = some none
  if_present (some v) = some some <*> read v

  pub if_present-optional :
      (json : A → JsonValue) (a : Option A)
      → ((x : A) → read (json x) ≡ some x)
      → if_present (optional json a) ≡ some a
  if_present-optional json none back = refl
  if_present-optional json (some a) back = rw (back a) refl

  pub as_list-array :
      (json : A → JsonValue) (xs : List A)
      → ((x : A) → read (json x) ≡ some x)
      → as_list (array (items_of (map json xs))) ≡ some xs
  as_list-array json [] back = refl
  as_list-array json (x ∷ xs) back = rw (back x, as_list-array json xs back) refl

  -- The fields that `JSON.stringify` wrote, each found by its name.
  pub required-given :
      (name : Text) (fields : List (Text × Option JsonValue)) {v : JsonValue} {a : A}
      → given name fields ≡ some v
      → read v ≡ some a
      → required (field_of name (fields_of fields)) ≡ some a
  required-given name fields h back = rw (field_of-fields_of name fields, h) back

  pub if_present-given :
      (name : Text) (fields : List (Text × Option JsonValue)) (json : A → JsonValue) (a : Option A)
      → given name fields ≡ or_later (optional json a) none
      → ((x : A) → read (json x) ≡ some x)
      → if_present (field_of name (fields_of fields)) ≡ some a
  if_present-given name fields json a h back =
      rw (field_of-fields_of name fields, h, or_later-none (optional json a))
        (if_present-optional json a back)

pub as_list-texts_json : (texts : List Text) → as_list as_text (texts_json texts) ≡ some texts
as_list-texts_json texts = as_list-array as_text string texts (λ s. refl)

-- An object, read by its fields.
abbrev pub as_object : {A : Type 0} → (JsonFields → Option A) → JsonValue → Option A
as_object read (object fields) = read fields
as_object read _ = none
