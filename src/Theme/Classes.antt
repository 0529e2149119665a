-- ===== src/Theme/Classes.antt =====
-- The classes on the root after the effect of web/src/components/theme-provider.tsx.
use karadul.Base.{
  ◌≡◌, refl, sym, ap, ◌∙◌, ◌≢◌, Bool, true, false, not, ◌&&◌, ◌||◌, List, [], ◌∷◌, ◌++◌, arith,
  if◌then◌else◌, any, Text, text_eq, text_eq_refl, text_eq_iff,
}
use karadul.Storage.{Storage, set_item, get_item-set_item}
use karadul.Theme.{
  dark, light, system, initial_theme, is_token, remove_class, add_class, apply_theme, set_theme,
}

-- Whether a class is set.
abbrev pub has_class : Text → List Text → Bool
has_class name = any (λ c. text_eq c name)

has_class-append :
    (name : Text) (xs ys : List Text)
    → has_class name (xs ++ ys) ≡ (has_class name xs || has_class name ys)
has_class-append name [] ys = refl
has_class-append name (x ∷ xs) ys = ground (arith, has_class-append name xs ys)

has_class-remove_class :
    (name other : Text) (classes : List Text)
    → has_class name (remove_class other classes)
      ≡ (if text_eq other name then false else has_class name classes)
has_class-remove_class name other [] = ground arith
has_class-remove_class name other (c ∷ classes) = ground (
  arith,
  text_eq_iff c other,
  text_eq_iff c name,
  text_eq_iff other name,
  has_class-remove_class name other classes,
)

has_class-add_class :
    (name other : Text) (classes : List Text)
    → has_class name (add_class other classes).0
      ≡ ((is_token other && text_eq other name) || has_class name classes)
has_class-add_class name other classes =
    ground (arith, text_eq_iff other name, has_class-append name classes (other ∷ []))

returns-add_class :
    (other : Text) (classes : List Text) → (add_class other classes).1 ≡ is_token other
returns-add_class other classes = ground arith

has_class-cleared :
    (name : Text) (classes : List Text)
    → has_class name (remove_class dark (remove_class light classes))
      ≡ (not (text_eq light name) && (not (text_eq dark name) && has_class name classes))
has_class-cleared name classes =
    has_class-remove_class name dark (remove_class light classes)
    ∙ ap (λ (b : Bool). if text_eq dark name then false else b)
        (has_class-remove_class name light classes)
    ∙ regroup (text_eq dark name) (text_eq light name) (has_class name classes)
  where
    regroup :
        (d l h : Bool) → (if d then false else if l then false else h) ≡ (not l && (not d && h))
    regroup d l h = ground arith

-- The two branches of the effect add the theme that is shown.
branches :
    (b prefers_dark : Bool) (theme : Text) (cleared : List Text)
    → (if b
        then add_class (if prefers_dark then dark else light) cleared
        else add_class theme cleared)
      ≡ add_class (if b then (if prefers_dark then dark else light) else theme) cleared
branches true prefers_dark theme cleared = refl
branches false prefers_dark theme cleared = refl

-- The theme that the page shows.
abbrev pub shown_theme : Bool → Text → Text
shown_theme prefers_dark theme =
    if text_eq theme system then (if prefers_dark then dark else light) else theme

-- The effect returns exactly if the shown theme can be a class, and throws otherwise. Afterwards a class
-- is set exactly if it is the shown theme and the effect has returned, or was set before and is
-- neither `light` nor `dark`. So with one of the three themes exactly one of the two classes is set,
-- and with any other stored text, which is taken as it is, neither is: it becomes a class itself, or
-- the effect throws on it when it is empty or has white space.
pub has_class-apply_theme :
    (prefers_dark : Bool) (theme name : Text) (classes : List Text)
    → let (after, returns) = apply_theme prefers_dark theme classes in
      (returns ≡ is_token (shown_theme prefers_dark theme))
      × (has_class name after ≡ (
          (returns && text_eq (shown_theme prefers_dark theme) name)
          || (not (text_eq light name) && (not (text_eq dark name) && has_class name classes))))
unfolding apply_theme
has_class-apply_theme prefers_dark theme name classes =
    let shown = shown_theme prefers_dark theme in
    let cleared = remove_class dark (remove_class light classes) in
    let e = branches (text_eq theme system) prefers_dark theme cleared in
    let returns = ap (λ (r : List Text × Bool). r.1) e ∙ returns-add_class shown cleared in
    (
      returns,
      ap (λ (r : List Text × Bool). has_class name r.0) e
          ∙ has_class-add_class name shown cleared
          ∙ ap (λ (b : Bool). (is_token shown && text_eq shown name) || b)
              (has_class-cleared name classes)
          ∙ ap
              (λ (b : Bool).
                (b && text_eq shown name)
                || (not (text_eq light name)
                    && (not (text_eq dark name) && has_class name classes)))
              (sym returns),
    )

-- A theme that the user chose is the theme after a reload, and the choice of another component's key
-- does not change it.
pub initial_theme-set_theme :
    (key other default_theme theme value : Text) (storage : Storage)
    → theme ≢ []
    → other ≢ key
    → initial_theme key default_theme (set_item other value (set_theme key theme storage).0) ≡ theme
unfolding initial_theme set_theme
initial_theme-set_theme key other default_theme [] value storage ne differs = absurd (ne refl)
initial_theme-set_theme key other default_theme (c ∷ theme) value storage ne differs = ground (
  arith,
  get_item-set_item other key value (set_item key (c ∷ theme) storage),
  get_item-set_item key key (c ∷ theme) storage,
  text_eq_iff other key,
  text_eq_refl key,
)
