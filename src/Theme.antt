-- ===== src/Theme.antt =====
-- web/src/components/theme-provider.tsx: the theme, its stored choice and the class on the document's
-- root. The stored text is cast to a theme without a test, so a theme is any text.
pub mod Classes
use karadul.Base.{
  ℕ, Bool, true, false, not, ◌&&◌, ◌||◌, none, some, List, [], ◌∷◌, ◌++◌, ◌==◌, if◌then◌else◌,
  filter, any, Text, codes, text_eq,
}
use karadul.Storage.{Storage, get_item, set_item}

abbrev pub dark : Text
dark = codes "dark"

abbrev pub light : Text
light = codes "light"

abbrev pub system : Text
system = codes "system"

-- The first value of the state: the stored text, or the default where there is none or an empty one.
unfoldable pub initial_theme : Text → Text → Storage → Text
initial_theme storage_key default_theme storage = elim (get_item storage_key storage) [
  | none ↦ default_theme
  | some [] ↦ default_theme
  | some (c ∷ stored) ↦ c ∷ stored
]

-- White space in a class: tab, line feed, form feed, carriage return and space.
abbrev pub is_class_space : ℕ → Bool
is_class_space c = c == 9 || c == 10 || c == 12 || c == 13 || c == 32

-- A text that can be a class.
abbrev pub is_token : Text → Bool
is_token [] = false
is_token (c ∷ name) = not (any is_class_space (c ∷ name))

-- `classList.remove(name)`
abbrev pub remove_class : Text → List Text → List Text
remove_class name = filter (λ c. not (text_eq c name))

-- `classList.add(name)`: the classes, and whether it returns. It throws, and changes nothing, on a
-- text that can not be a class.
abbrev pub add_class : Text → List Text → List Text × Bool
add_class name classes =
    if is_token name
    then (if any (λ c. text_eq c name) classes then classes else classes ++ name ∷ [], true)
    else (classes, false)

-- The effect on the root's classes, and whether it returns. `prefers_dark` is what the media query
-- answers.
unfoldable pub apply_theme : Bool → Text → List Text → List Text × Bool
apply_theme prefers_dark theme classes =
    let cleared = remove_class dark (remove_class light classes) in
    if text_eq theme system
    then add_class (if prefers_dark then dark else light) cleared
    else add_class theme cleared

-- `value.setTheme(theme)`: the storage and the state's new theme.
unfoldable pub set_theme : Text → Text → Storage → Storage × Text
set_theme storage_key theme storage = (set_item storage_key theme storage, theme)
