-- ===== src/Storage.antt =====
-- The browser's `localStorage`, as web/src/lib/api.ts and web/src/components/theme-provider.tsx use
-- it: the stored pairs, a key at most once if only these functions write.
use karadul.Base.{
  ◌≡◌, Option, none, some, List, [], ◌∷◌, arith, if◌then◌else◌, Text, text_eq, text_eq_iff,
  text_eq_iff,
}

abbrev pub Storage : Type 0
Storage = List (Text × Text)

-- `localStorage.getItem(key)`
unfoldable pub get_item : Text → Storage → Option Text
get_item key [] = none
get_item key ((k, v) ∷ rest) = if text_eq k key then some v else get_item key rest

-- `localStorage.removeItem(key)`
unfoldable pub remove_item : Text → Storage → Storage
remove_item key [] = []
remove_item key ((k, v) ∷ rest) =
    let kept = remove_item key rest in if text_eq k key then kept else (k, v) ∷ kept

-- `localStorage.setItem(key, value)`
unfoldable pub set_item : Text → Text → Storage → Storage
unfolding remove_item
set_item key value storage = (key, value) ∷ remove_item key storage

pub get_item-remove_item :
    (key other : Text) (storage : Storage)
    → get_item other (remove_item key storage)
      ≡ (if text_eq key other then none else get_item other storage)
unfolding get_item remove_item
get_item-remove_item key other [] = ground arith
get_item-remove_item key other ((k, v) ∷ rest) = ground (
  arith,
  text_eq_iff k key,
  text_eq_iff key other,
  text_eq_iff k other,
  get_item-remove_item key other rest,
)

pub get_item-set_item :
    (key other value : Text) (storage : Storage)
    → get_item other (set_item key value storage)
      ≡ (if text_eq key other then some value else get_item other storage)
unfolding get_item set_item
get_item-set_item key other value storage = ground (arith, get_item-remove_item key other storage)
