-- ===== src/Api/Guarded.antt =====
-- Which requests the functions of web/src/lib/api.ts send, and that they touch nothing else that is kept.
use karadul.Base.{
  All-append, ◌≡◌, refl, sym, ap, ◌∙◌, ◌⊎◌, inl, inr, Bool, true, false, List, [], ◌∷◌, ◌++◌,
  Bool-cases, any, Text, codes, text_eq, starts_with, All,
}
use mathlib.Core.List.{append-nil, append_assoc}
use karadul.Storage.{Storage}
use karadul.Api.{Request, Options, App, Toast, make_request}
use karadul.Api.Mutations.{Mutation, show_toast}
use karadul.Api.Mutations.Announce.{Announces}
use karadul.Api.Mutations.Runner.{Runner}

-- A header with the token.
abbrev pub is_authorization : Text × Text → Bool
is_authorization (name, value) = text_eq name (codes "Authorization")

-- A request to the coordinator's interface that carries a token to its administration alone.
abbrev pub IsGuarded : Request → Type 0
IsGuarded request =
    (path : Text) × (request.url ≡ codes "/api" ++ path)
    × ((any is_authorization request.headers ≡ false)
        ⊎ (starts_with path (codes "/v1/admin") ≡ true))

pub make_request-IsGuarded :
    (path : Text) (options : Options) (storage : Storage)
    → IsGuarded (make_request path options storage)
unfolding make_request
make_request-IsGuarded path options storage = (
  path,
  refl,
  elim (Bool-cases (starts_with path (codes "/v1/admin"))) [
    | inl admin ↦ inr admin
    | inr public ↦ inl (rw public refl)
  ],
)

-- What was sent between two states.
abbrev pub Sent : App → App → Type 0
Sent app after =
    (sent : List Request) × (after.requests ≡ app.requests ++ sent) × All IsGuarded sent

-- Requests and toasts may have come, and queries been invalidated.
pub record Keeps (app after : App) : Type 0 where
  pub store : after.store ≡ app.store
  pub storage : after.storage ≡ app.storage
  pub sent : Sent app after

pub Sent-refl : (app : App) → Sent app app
Sent-refl app = ([], sym (append-nil app.requests), tt)

pub Keeps-refl : (app : App) → Keeps app app
Keeps-refl app = record { store = refl; storage = refl; sent = Sent-refl app }

-- A call of a mutation, and the toast that the page shows after it.
pub announced-Keeps :
    {V T : Type 0} (r : Runner) (m : Mutation V T) (key : List Text) (v : V) (app : App)
    → Announces r m key
    → Keeps app (r.mutate_async V T m v app).1
announced-Keeps r m key v app announces =
    let (store, storage, (path, (options, requests)), rest) = announces v app in
    record {
      store = store;
      storage = storage;
      sent = (
        make_request path options app.storage ∷ [],
        requests,
        (make_request-IsGuarded path options app.storage, tt),
      );
    }

pub toasted-Keeps :
    {app after : App} (toast : Toast) → Keeps app after → Keeps app (show_toast toast after)
toasted-Keeps toast k = record { store = k.store; storage = k.storage; sent = k.sent }

pub Sent-trans : (a b c : App) → Sent a b → Sent b c → Sent a c
Sent-trans a b c (xs, e, guarded) (ys, f, others) = (
  xs ++ ys,
  f ∙ ap (λ (l : List Request). l ++ ys) e ∙ append_assoc a.requests xs ys,
  All-append IsGuarded xs ys guarded others,
)
