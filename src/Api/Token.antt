-- ===== src/Api/Token.antt =====
-- Where the admin token of web/src/lib/api.ts goes.
use karadul.Base.{
  ◌≡◌, refl, ◌≢◌, List, [], ◌∷◌, ◌++◌, arith, if◌then◌else◌, Text, codes, starts_with, text_eq_iff,
}
use karadul.Storage.{Storage, get_item, get_item-remove_item, get_item-set_item}
use karadul.Api.{admin_token_key, get_admin_token, set_admin_token, Options, make_request}

-- The header that carries the token.
abbrev pub authorization : Text → List (Text × Text)
authorization [] = []
authorization (c ∷ token) = (codes "Authorization", codes "Bearer " ++ c ∷ token) ∷ []

pub get_admin_token_lem :
    (token : Text) (storage : Storage) → get_admin_token (set_admin_token token storage) ≡ token
unfolding get_admin_token set_admin_token
get_admin_token_lem [] storage =
    ground (arith, get_item-remove_item admin_token_key admin_token_key storage)
get_admin_token_lem (c ∷ token) storage =
    ground (arith, get_item-set_item admin_token_key admin_token_key (c ∷ token) storage)

-- What is set is got back, and the empty token as well; no other item of the storage changes.
pub get_admin_token-set_admin_token :
    (token other : Text) (storage : Storage)
    → other ≢ admin_token_key
    → (get_admin_token (set_admin_token token storage) ≡ token)
      × (get_item other (set_admin_token token storage) ≡ get_item other storage)
unfolding get_admin_token set_admin_token
get_admin_token-set_admin_token [] other storage ne = (
  get_admin_token_lem [] storage,
  ground (
    arith,
    get_item-remove_item admin_token_key other storage,
    text_eq_iff admin_token_key other,
    ne,
  ),
)
get_admin_token-set_admin_token (c ∷ token) other storage ne = (
  get_admin_token_lem (c ∷ token) storage,
  ground (
    arith,
    get_item-set_item admin_token_key other (c ∷ token) storage,
    text_eq_iff admin_token_key other,
    ne,
  ),
)

-- A request carries the token exactly if its path begins with `/v1/admin` and a token is stored; the
-- content type is the only other header, and the URL is the path below `/api`.
pub make_request_lem :
    (path : Text) (options : Options) (token : Text) (storage : Storage)
    → let request = make_request path options (set_admin_token token storage) in
      (request.url ≡ codes "/api" ++ path)
      × (request.body ≡ options.body)
      × (request.headers
          ≡ (codes "Content-Type", codes "application/json")
            ∷ (if starts_with path (codes "/v1/admin") then authorization token else []))
unfolding make_request
make_request_lem path options token storage =
    let got : get_admin_token (set_admin_token token storage) ≡ token =
      get_admin_token_lem token storage in
    (refl, refl, ground (arith, got))
