-- ===== src/MockApi/Keys.antt =====
-- The keys of the in-memory coordinator of web/src/lib/mock-api.ts.
use karadul.Base.{
  ℕ, ◌*◌, ◌^◌, ◌≤◌, ◌≡◌, ap, ◌∙◌, Bool, true, Option, none, some, List, [], ◌∷◌, ◌++◌, arith, count,
  Text, codes, text_eq, text_eq_refl, show_number, parse_int, IsDigits,
}
use mathlib.Core.Option
use karadul.Api.Mutations.{AuthKey}
use karadul.Api.Duration.{
  match_duration_lem, is_hdm, go_minutes, to_go_duration, go_minutes-to_go_duration,
}
use karadul.MockApi.{
  MockState, is_hd, parse_duration, expires_at_of, key_with, new_auth_key, with_auth_key,
  create_auth_key, delete_auth_key,
}
use karadul.MockApi.Laws.{without_first, erase_found-find_index}

without_first-append {ℓ} :
    {A : Type ℓ} (p : A → Bool) (xs : List A) (x : A)
    → count p xs ≡ 0
    → p x ≡ true
    → without_first p (xs ++ x ∷ []) ≡ xs
without_first-append p [] x none_before h = ground arith
without_first-append p (y ∷ xs) x none_before h = ground (arith, without_first-append p xs x)

delete-added :
    (iso : ℕ → Text) (now : ℕ) (random : Text) (expires_at : Option Text) (s : MockState)
    (key : AuthKey)
    → count (λ (k : AuthKey). text_eq k.id (codes "key-" ++ show_number now)) s.auth_keys ≡ 0
    → key_with iso now random (some expires_at) ≡ some key
    → delete_auth_key key.id (with_auth_key (key_with iso now random (some expires_at)) s).1 ≡ s
unfolding delete_auth_key
delete-added iso now random expires_at s key fresh same =
    let id = codes "key-" ++ show_number now in
    let is_key = λ (k : AuthKey). text_eq k.id id in
    let added = (with_auth_key (key_with iso now random (some expires_at)) s).1 in
    let named : id ≡ key.id = cc in
    rw (← named) (
      ap (λ (keys : List AuthKey). record s { auth_keys = keys })
        (erase_found-find_index is_key added.auth_keys
          ∙ without_first-append is_key s.auth_keys _ fresh (text_eq_refl id)))

-- A key that is created and then deleted by its identifier leaves the coordinator as it was, if no
-- older key has the identifier, which is made of the time.
pub delete_auth_key-create_auth_key :
    (iso : ℕ → Text) (now : ℕ) (random : Text) (expires_in : Option Text) (s : MockState)
    (key : AuthKey)
    → count (λ (k : AuthKey). text_eq k.id (codes "key-" ++ show_number now)) s.auth_keys ≡ 0
    → (create_auth_key iso now random expires_in s).0 ≡ some key
    → delete_auth_key key.id (create_auth_key iso now random expires_in s).1 ≡ s
unfolding create_auth_key new_auth_key
delete_auth_key-create_auth_key iso now random expires_in s key fresh created =
    deleted (expires_at_of iso now expires_in) created
  where
    deleted :
        (expiry : Option (Option Text))
        → (with_auth_key (key_with iso now random expiry) s).0 ≡ some key
        → delete_auth_key key.id (with_auth_key (key_with iso now random expiry) s).1 ≡ s
    deleted none h = absurd (cc)
    deleted (some expires_at) h = delete-added iso now random expires_at s key fresh (cc)

is_hd-is_hdm : (unit : ℕ) → is_hd unit ≡ true → is_hdm unit ≡ true
is_hd-is_hdm unit h = ground arith

-- A number of hours or days that JavaScript counts exactly in milliseconds is the same time to the
-- in-memory coordinator, which reads the dashboard's value, as to the real one, which reads the value
-- that `toGoDuration` makes of it.
pub parse_duration-go_minutes :
    (digits : Text) (unit : ℕ)
    → IsDigits digits
    → is_hd unit ≡ true
    → parse_int digits * 86400000 ≤ 2 ^ 53
    → Option.map (λ minutes. 60000 * minutes) (go_minutes (to_go_duration (digits ++ unit ∷ [])))
      ≡ some (parse_duration (digits ++ unit ∷ []))
unfolding parse_duration
parse_duration-go_minutes digits unit h u exact =
    rw
      (
        go_minutes-to_go_duration digits unit h (is_hd-is_hdm unit u) (omega arith),
        match_duration_lem digits is_hd unit h u,
      )
      (ground arith)
