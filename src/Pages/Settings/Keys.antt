-- ===== src/Pages/Settings/Keys.antt =====
-- The handlers of web/src/pages/settings.tsx that await a mutation.
use karadul.Base.{◌≡◌, refl, ◌⊎◌, inl, inr, false, List, [], ◌∷◌, ◌++◌, Text, codes}
use mathlib.Core.List.{append_assoc}
use karadul.Api.{Request, Reply, Outcome, ok, err, App, Toast, success, error}
use karadul.Api.Mutations.{AuthKey, create_auth_key, auth_keys_key}
use karadul.Api.Mutations.Runner.{Runner}
use karadul.Api.Mutations.Announce.{create_auth_key-Announces}
use karadul.Pages.Settings.{say, truthy, after_create, SettingsPage, handle_create_key}

-- What a call of the mutation did to the state, given its outcome.
CreatedOr : App → Outcome AuthKey × App → Type 0
CreatedOr app (outcome, after) =
    ((value : AuthKey) × (outcome ≡ ok value)
      × (after.invalidated ≡ app.invalidated ++ auth_keys_key ∷ [])
      × ((s : Text) × (after.toasts ≡ app.toasts ++ success s ∷ [])))
    ⊎ ((message : Text) × (outcome ≡ err message)
        × (after.invalidated ≡ app.invalidated)
        × ((s : Text) × (after.toasts ≡ app.toasts ++ error s ∷ [])))

-- Two toasts of one kind, at the end of those shown before.
abbrev pub TwoToasts : (Text → Toast) → App → App → Type 0
TwoToasts kind before after =
    (first : Text) × (second : Text) × (after.toasts
      ≡ before.toasts ++ kind first ∷ kind second ∷ [])

twice :
    (kind : Text → Toast) (before after : List Toast) (first second : Text)
    → after ≡ before ++ kind first ∷ []
    → after ++ kind second ∷ [] ≡ before ++ kind first ∷ kind second ∷ []
twice kind before after first second e = rw (e) (append_assoc before _ _)

after_create_lem :
    (page : SettingsPage) (app : App) (result : Outcome AuthKey × App)
    → CreatedOr app result
    → let page' = after_create result.0 page in
      let app' =
        say
          (codes "Authentication key created successfully")
          (codes "Failed to create key: ")
          result in
      ((page' ≡ record page { show_create_dialog = false; new_key_expires_in = [] })
        × (app'.invalidated ≡ app.invalidated ++ auth_keys_key ∷ [])
        × TwoToasts success app app')
      ⊎ ((page' ≡ page) × (app'.invalidated ≡ app.invalidated) × TwoToasts error app app')
unfolding CreatedOr after_create say
after_create_lem page app (ok value, after) (inl (v, e, keys, (s, shown))) = inl (
  refl,
  keys,
  (
    s,
    _,
    twice success app.toasts after.toasts s (codes "Authentication key created successfully") shown,
  ),
)
after_create_lem page app (err message, after) (inr (m, e, keys, (s, shown))) = inr (
  refl,
  keys,
  (s, _, twice error app.toasts after.toasts s (codes "Failed to create key: " ++ message) shown),
)
after_create_lem page app (ok value, after) (inr (m, e, keys, shown)) = absurd (cc)
after_create_lem page app (err message, after) (inl (v, e, keys, shown)) = absurd (cc)

module _ (r : Runner) (serve : Request → Reply) (parse : Text → Outcome AuthKey) where
  -- Where a key has been created the dialog is closed, the choice of an expiry is reset and the keys
  -- are fetched again; where it has not, the dialog stays open with its choice. Either way the user
  -- sees two toasts for the one event, the hook's and the page's.
  pub handle_create_key_lem :
      (page : SettingsPage) (app : App)
      → let (page', app') = handle_create_key r serve parse (page, app) in
        ((page' ≡ record page { show_create_dialog = false; new_key_expires_in = [] })
          × (app'.invalidated ≡ app.invalidated ++ auth_keys_key ∷ [])
          × TwoToasts success app app')
        ⊎ ((page' ≡ page) × (app'.invalidated ≡ app.invalidated) × TwoToasts error app app')
  unfolding handle_create_key CreatedOr
  handle_create_key_lem page app =
      after_create_lem page app
        (r.mutate_async _ _ (create_auth_key serve parse) (truthy page.new_key_expires_in) app)
        (create_auth_key-Announces r serve parse (truthy page.new_key_expires_in) app).3
