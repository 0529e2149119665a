-- ===== src/MockApi/Registry.antt =====
-- The auth keys of the in-memory coordinator (web/src/lib/mock-api.ts) as a registry: a function from
-- identifiers to keys.
use karadul.Base.{
  ℕ, ◌≡◌, refl, ap, ◌∙◌, Bool, true, false, not, ◌&&◌, ◌||◌, Option, none, some, List, [], ◌∷◌,
  ◌++◌, map, foldl, arith, if◌then◌else◌, find, any, Text, codes, text_eq, show_number, text_eq_iff,
}
use karadul.Api.Mutations.{AuthKey}
use karadul.MockApi.{
  MockState, expires_at_of, key_with, new_auth_key, with_auth_key, create_auth_key, delete_auth_key,
}
use karadul.MockApi.Laws.{without_first, erase_found-find_index}

-- What the registry promises.
abbrev pub Registry : Type 0
Registry = Text → Option AuthKey

abbrev pub store_key : AuthKey → Registry → Registry
store_key key registry id = if text_eq key.id id then some key else registry id

-- A call that throws stores no key.
abbrev pub store_new : Option AuthKey → Registry → Registry
store_new none registry = registry
store_new (some key) registry = store_key key registry

abbrev pub forget_key : Text → Registry → Registry
forget_key gone registry id = if text_eq gone id then none else registry id

-- The calls of the settings page: with the time, the random part and the chosen expiry, or with the
-- identifier of the key.
pub data KeyCall : Type 0 where
  create : ℕ → Text → Option Text → KeyCall
  delete : Text → KeyCall

module _ (iso : ℕ → Text) where
  abbrev pub promised : Registry → KeyCall → Registry
  unfolding new_auth_key
  promised registry (create now random expires_in) =
      store_new (new_auth_key iso now random expires_in) registry
  promised registry (delete id) = forget_key id registry

  abbrev pub called : MockState → KeyCall → MockState
  unfolding create_auth_key delete_auth_key
  called s (create now random expires_in) = (create_auth_key iso now random expires_in s).1
  called s (delete id) = delete_auth_key id s

-- The registry that a list of keys stands for: the first with the identifier.
abbrev pub registry_of : List AuthKey → Registry
registry_of keys id = find (λ (k : AuthKey). text_eq k.id id) keys

abbrev pub ids_of : List AuthKey → List Text
ids_of = map AuthKey.id

-- The identifiers that the calls give to new keys.
abbrev pub new_ids : List KeyCall → List Text
new_ids [] = []
new_ids (create now random expires_in ∷ calls) = (codes "key-" ++ show_number now) ∷ new_ids calls
new_ids (delete id ∷ calls) = new_ids calls

abbrev pub all_distinct : List Text → Bool
all_distinct [] = true
all_distinct (x ∷ xs) = not (any (text_eq x) xs) && all_distinct xs

registry_of-append :
    (key : AuthKey) (keys : List AuthKey) (id : Text)
    → any (text_eq key.id) (ids_of keys) ≡ false
    → registry_of (keys ++ key ∷ []) id ≡ store_key key (registry_of keys) id
registry_of-append key [] id h = refl
registry_of-append key (k ∷ keys) id h = ground (
  arith,
  text_eq_iff key.id k.id,
  text_eq_iff k.id id,
  text_eq_iff key.id id,
  registry_of-append key keys id,
)

registry_of-absent :
    (keys : List AuthKey) (id : Text)
    → any (text_eq id) (ids_of keys) ≡ false
    → registry_of keys id ≡ none
registry_of-absent [] id h = refl
registry_of-absent (k ∷ keys) id h =
    ground (arith, text_eq_iff k.id id, text_eq_iff id k.id, registry_of-absent keys id)

registry_of-without_first :
    (gone : Text) (keys : List AuthKey) (id : Text)
    → all_distinct (ids_of keys) ≡ true
    → registry_of (without_first (λ (k : AuthKey). text_eq k.id gone) keys) id
      ≡ forget_key gone (registry_of keys) id
registry_of-without_first gone [] id h = ground arith
registry_of-without_first gone (k ∷ keys) id h = ground (
  arith,
  text_eq_iff k.id gone,
  text_eq_iff k.id id,
  text_eq_iff gone id,
  registry_of-absent keys k.id,
  registry_of-without_first gone keys id,
)

-- Distinct identifiers stay so.
any-append_ids :
    (x : Text) (xs ys : List Text)
    → any (text_eq x) (xs ++ ys) ≡ (any (text_eq x) xs || any (text_eq x) ys)
any-append_ids x [] ys = refl
any-append_ids x (y ∷ xs) ys = ground (arith, any-append_ids x xs ys)

any-without_first :
    (x gone : Text) (keys : List AuthKey)
    → any (text_eq x) (ids_of keys) ≡ false
    → any (text_eq x) (ids_of (without_first (λ (k : AuthKey). text_eq k.id gone) keys)) ≡ false
any-without_first x gone [] h = h
any-without_first x gone (k ∷ keys) h = ground (arith, any-without_first x gone keys)

distinct-without_first :
    (gone : Text) (keys : List AuthKey) (more : List Text)
    → all_distinct (ids_of keys ++ more) ≡ true
    → all_distinct (ids_of (without_first (λ (k : AuthKey). text_eq k.id gone) keys) ++ more) ≡ true
distinct-without_first gone [] more h = h
distinct-without_first gone (k ∷ keys) more h = ground (
  arith,
  any-append_ids k.id (ids_of keys) more,
  any-append_ids k.id (ids_of (without_first (λ (k : AuthKey). text_eq k.id gone) keys)) more,
  any-without_first k.id gone keys,
  distinct-without_first gone keys more,
)

distinct-left : (xs ys : List Text) → all_distinct (xs ++ ys) ≡ true → all_distinct xs ≡ true
distinct-left [] ys h = refl
distinct-left (x ∷ xs) ys h = ground (arith, any-append_ids x xs ys, distinct-left xs ys)

distinct-middle :
    (xs ys : List Text) (y : Text) → all_distinct (xs ++ y ∷ ys) ≡ true → any (text_eq y) xs ≡ false
distinct-middle [] ys y h = refl
distinct-middle (x ∷ xs) ys y h =
    ground (
      arith,
      text_eq_iff x y,
      text_eq_iff y x,
      any-append_ids x xs (y ∷ ys),
      distinct-middle xs ys y,
    )

distinct-skip :
    (xs ys : List Text) (y : Text)
    → all_distinct (xs ++ y ∷ ys) ≡ true
    → all_distinct (xs ++ ys) ≡ true
distinct-skip [] ys y h = ground arith
distinct-skip (x ∷ xs) ys y h =
    ground (arith, any-append_ids x xs (y ∷ ys), any-append_ids x xs ys, distinct-skip xs ys y)

ids_of-append :
    (keys : List AuthKey) (key : AuthKey) (more : List Text)
    → ids_of (keys ++ key ∷ []) ++ more ≡ ids_of keys ++ key.id ∷ more
ids_of-append [] key more = refl
ids_of-append (k ∷ keys) key more = ap (k.id ∷◌) (ids_of-append keys key more)

new_ids-cons :
    (call : KeyCall) (calls : List KeyCall)
    → new_ids (call ∷ []) ++ new_ids calls ≡ new_ids (call ∷ calls)
new_ids-cons (create now random expires_in) calls = refl
new_ids-cons (delete id) calls = refl

store_new_cong :
    (o : Option AuthKey) (f g : Registry)
    → ((id : Text) → f id ≡ g id)
    → (id : Text) → store_new o f id ≡ store_new o g id
store_new_cong none f g same id = same id
store_new_cong (some key) f g same id = rw (same id) refl

-- A key that is created, or not as its expiry can not be printed.
with_auth_key_lem :
    (iso : ℕ → Text) (now : ℕ) (random : Text) (expiry : Option (Option Text)) (more : List Text)
    (s : MockState)
    → all_distinct (ids_of s.auth_keys ++ (codes "key-" ++ show_number now) ∷ more) ≡ true
    → let new_key = key_with iso now random expiry in
      let after = (with_auth_key new_key s).1 in
      (all_distinct (ids_of after.auth_keys ++ more) ≡ true)
      × ((id : Text)
          → registry_of after.auth_keys id ≡ store_new new_key (registry_of s.auth_keys) id)
with_auth_key_lem iso now random none more s h =
    (distinct-skip (ids_of s.auth_keys) more (codes "key-" ++ show_number now) h, λ id. refl)
with_auth_key_lem iso now random (some expires_at) more s h =
    let key : AuthKey = record {
      id = codes "key-" ++ show_number now;
      key = codes "kdl_auth_" ++ random;
      ephemeral = false;
      expires_at = expires_at;
      created_at = iso now;
      used_at = none;
      used = false;
    } in
    (
      ap all_distinct (ids_of-append s.auth_keys key more) ∙ h,
      λ id.
          registry_of-append key s.auth_keys id
            (distinct-middle (ids_of s.auth_keys) more key.id h),
    )

module _ (iso : ℕ → Text) where
  promised_cong :
      (f g : Registry) (call : KeyCall)
      → ((id : Text) → f id ≡ g id)
      → (id : Text) → promised iso f call id ≡ promised iso g call id
  unfolding promised
  promised_cong f g (create now random expires_in) same id =
      store_new_cong (new_auth_key iso now random expires_in) f g same id
  promised_cong f g (delete gone) same id = rw (same id) refl

  promises_cong :
      (calls : List KeyCall) (f g : Registry)
      → ((id : Text) → f id ≡ g id)
      → (id : Text) → foldl (promised iso) f calls id ≡ foldl (promised iso) g calls id
  promises_cong [] f g same id = same id
  promises_cong (call ∷ calls) f g same id =
      promises_cong calls (promised iso f call) (promised iso g call) (promised_cong f g call same)
        id

  -- One call keeps the identifiers apart and does what the registry promises.
  called_lem :
      (call : KeyCall) (more : List Text) (s : MockState)
      → all_distinct (ids_of s.auth_keys ++ (new_ids (call ∷ []) ++ more)) ≡ true
      → (all_distinct (ids_of (called iso s call).auth_keys ++ more) ≡ true)
        × ((id : Text)
            → registry_of (called iso s call).auth_keys id
              ≡ promised iso (registry_of s.auth_keys) call id)
  unfolding create_auth_key delete_auth_key new_auth_key
  called_lem (create now random expires_in) more s h =
      with_auth_key_lem iso now random (expires_at_of iso now expires_in) more s h
  called_lem (delete gone) more s h =
      let rest = erase_found-find_index (λ (k : AuthKey). text_eq k.id gone) s.auth_keys in
      (
        ap (λ l. all_distinct (ids_of l ++ more)) rest
            ∙ distinct-without_first gone s.auth_keys more h,
        λ id.
            ap (λ l. registry_of l id) rest
            ∙ registry_of-without_first gone s.auth_keys id
                (distinct-left (ids_of s.auth_keys) more h),
      )

  -- After any calls that create and delete keys, the array of the keys stands for what the registry
  -- promises: a created key is found under its identifier until it is deleted, a deleted one is not
  -- found, and all others are as they were; a call that throws, as the time of its expiry is beyond
  -- what a date can hold, stores nothing. The identifiers at the start and those that the times of
  -- creation give must be distinct.
  pub called-promised :
      (calls : List KeyCall) (s : MockState) (id : Text)
      → all_distinct (ids_of s.auth_keys ++ new_ids calls) ≡ true
      → registry_of (foldl (called iso) s calls).auth_keys id
        ≡ foldl (promised iso) (registry_of s.auth_keys) calls id
  called-promised [] s id h = refl
  called-promised (call ∷ calls) s id h =
      let (apart, one) =
        called_lem call (new_ids calls) s
          (ap (λ l. all_distinct (ids_of s.auth_keys ++ l)) (new_ids-cons call calls) ∙ h) in
      called-promised calls (called iso s call) id apart
      ∙ promises_cong calls (registry_of (called iso s call).auth_keys)
          (promised iso (registry_of s.auth_keys) call) one id
