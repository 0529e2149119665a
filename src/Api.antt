-- ===== src/Api.antt =====
-- web/src/lib/api.ts: the admin token, the requests to the coordinator and the state that the hooks
-- of the dashboard change. The coordinator is a function from requests to replies.
pub mod Token
pub mod Duration
pub mod Queries
pub mod Mutations
pub mod Guarded
pub mod Polls
use karadul.Base.{
  ℕ, Bool, true, false, Option, none, some, List, [], ◌∷◌, ◌++◌, if◌then◌else◌, Text, codes,
  starts_with, show_number,
}
use karadul.Store.{KaradulState}
use karadul.Storage.{
  Storage, get_item, remove_item, set_item, get_item-remove_item, get_item-set_item,
}

abbrev pub api_base : Text
api_base = codes "/api"

abbrev pub admin_token_key : Text
admin_token_key = codes "karadul_admin_token"

-- `getAdminToken()`
unfoldable pub get_admin_token : Storage → Text
get_admin_token storage = elim (get_item admin_token_key storage) [ none ↦ [] | some token ↦ token ]

-- `setAdminToken(token)`
unfoldable pub set_admin_token : Text → Storage → Storage
set_admin_token [] storage = remove_item admin_token_key storage
set_admin_token (c ∷ token) storage = set_item admin_token_key (c ∷ token) storage

-- `RequestInit`, as far as the callers give it.
pub record Options : Type 0 where
  pub method : Option Text
  pub body : Option Text

abbrev pub no_options : Options
no_options = record { method = none; body = none }

-- A request without a method is a GET.
pub record Request : Type 0 where
  pub url : Text
  pub method : Text
  pub headers : List (Text × Text)
  pub body : Option Text

-- `fetch` rejects with a message, or the response has its `ok`, `status` and body.
pub data Reply : Type 0 where
  rejected : Text → Reply
  response : Bool → ℕ → Text → Reply

-- What a promise settles to. An error is its message.
pub data Outcome (A : Type 0) : Type 0 where
  ok : A → Outcome A
  err : Text → Outcome A

-- The state that the hooks share: the store, the local storage, the toasts shown, the query keys
-- invalidated and the requests sent, each with the newest last.
pub data Toast : Type 0 where
  success error : Text → Toast

pub record App : Type 0 where
  pub store : KaradulState
  pub storage : Storage
  pub toasts : List Toast
  pub invalidated : List (List Text)
  pub requests : List Request

-- The headers that `fetchApi` sets for a path.
unfoldable pub request_headers : Text → Storage → List (Text × Text)
unfolding get_admin_token
request_headers path storage =
    let content : Text × Text = (codes "Content-Type", codes "application/json") in
    if starts_with path (codes "/v1/admin")
    then elim (get_admin_token storage) [
      | [] ↦ content ∷ []
      | c ∷ token ↦ content ∷ (codes "Authorization", codes "Bearer " ++ c ∷ token) ∷ []
    ]
    else content ∷ []

unfoldable pub make_request : Text → Options → Storage → Request
unfolding request_headers
make_request path options storage = record {
  url = api_base ++ path;
  method = elim options.method [ none ↦ codes "GET" | some method ↦ method ];
  headers = request_headers path storage;
  body = options.body;
}

-- The part of `fetchApi` behind the response. `parse` is `response.json()` and its use as a value.
unfoldable pub read_reply : {A : Type 0} → (Text → Outcome A) → Reply → Outcome A
read_reply parse (rejected message) = err message
read_reply parse (response true status body) = parse body
read_reply parse (response false status []) = err (codes "HTTP " ++ show_number status)
read_reply parse (response false status (c ∷ message)) = err (c ∷ message)

-- `fetchApi(path, options)`
unfoldable pub fetch_api :
    {A : Type 0} → (Request → Reply) → (Text → Outcome A) → Text → Options → App → Outcome A × App
unfolding make_request read_reply
fetch_api serve parse path options app =
    let request = make_request path options app.storage in
    (read_reply parse (serve request), record app { requests = app.requests ++ request ∷ [] })
