-- ===== src/Pages/Settings/Frame.antt =====
-- What the events of the settings page (web/src/pages/settings.tsx) leave as it is.
use karadul.Base.{
  ◌≡◌, refl, ◌∙◌, ◌⊎◌, inl, inr, Bool, true, false, Option, some, List, [], ◌∷◌, ◌++◌, Text, codes,
}
use karadul.Api.{Options, make_request, Request, Reply, Outcome, ok, err, App}
use karadul.Api.Guarded.{Keeps, Keeps-refl, announced-Keeps, toasted-Keeps}
use karadul.Api.Mutations.{
  delete_options, key_options, rules_options, config_options, AuthKey, AclRule, ServerConfig,
  delete_auth_key, update_acl, update_config, create_auth_key, auth_keys_key, acl_key, config_key,
}
use karadul.Api.Mutations.Announce.{mutations-Announces, settings_mutations-Requests}
use karadul.Api.Mutations.Runner.{Runner}
use karadul.Pages.Settings.{
  change_admin_token, SettingsPage, say, truthy, after_create, handle_add_acl_rule, update_acl_rule,
  remove_acl_rule, handle_save_acl, handle_delete_key, handle_create_key, handle_copy_key,
}
use karadul.Pages.Settings.Events.{
  SettingsEvent, refetch, create_key, add_rule, save_acl, save_config, set_tab,
  set_show_create_dialog, set_expires_in, copy_key, delete_key, set_admin_token, update_rule,
  remove_rule, edit, SettingsState, settings_update,
}

-- The event that changes the stored token.
abbrev pub sets_token : SettingsEvent → Bool
sets_token (set_admin_token token) = true
sets_token _ = false

say-Keeps :
    {T : Type 0} (done failure : Text) (app : App) (result : Outcome T × App)
    → Keeps app result.1
    → Keeps app (say done failure result)
unfolding say
say-Keeps done failure app (ok value, after) k = toasted-Keeps _ k
say-Keeps done failure app (err message, after) k = toasted-Keeps _ k

module _ (r : Runner) (serve : Request → Reply) (parse : Text → Outcome (Unit {0}))
    (parse_key : Text → Outcome AuthKey) where
  deleted-Keeps :
      (id : Text) (app : App)
      → Keeps app (r.mutate_async Text (Unit {0}) (delete_auth_key serve parse) id app).1
  deleted-Keeps id app =
      announced-Keeps r (delete_auth_key serve parse) auth_keys_key id app
        (mutations-Announces r serve parse parse_key).2

  created-Keeps :
      (expires_in : Option Text) (app : App)
      → Keeps app
          (r.mutate_async (Option Text) AuthKey (create_auth_key serve parse_key) expires_in app).1
  created-Keeps expires_in app =
      announced-Keeps r (create_auth_key serve parse_key) auth_keys_key expires_in app
        (mutations-Announces r serve parse parse_key).1

  rules_saved-Keeps :
      (rules : List AclRule) (app : App)
      → Keeps app (r.mutate_async (List AclRule) (Unit {0}) (update_acl serve parse) rules app).1
  rules_saved-Keeps rules app =
      announced-Keeps r (update_acl serve parse) acl_key rules app
        (mutations-Announces r serve parse parse_key).3

  config_saved-Keeps :
      (config : ServerConfig) (app : App)
      → Keeps app (r.mutate_async ServerConfig (Unit {0}) (update_config serve parse) config app).1
  config_saved-Keeps config app =
      announced-Keeps r (update_config serve parse) config_key config app
        (mutations-Announces r serve parse parse_key).4

  -- No event writes the store, and only the field of the token writes the storage.
  pub settings_update-Keeps :
      (e : SettingsEvent) (s : SettingsState)
      → sets_token e ≡ false
      → Keeps s.app (settings_update r serve parse parse_key e s).app
  unfolding settings_update handle_save_acl handle_delete_key handle_create_key handle_copy_key
  settings_update-Keeps refetch s h = Keeps-refl s.app
  settings_update-Keeps create_key s h =
      say-Keeps _ (codes "Failed to create key: ") s.app _
        (created-Keeps (truthy s.page.new_key_expires_in) s.app)
  settings_update-Keeps add_rule s h = Keeps-refl s.app
  settings_update-Keeps save_acl s h =
      say-Keeps _ (codes "Failed to update ACL: ") s.app _
        (rules_saved-Keeps s.page.acl_rules s.app)
  settings_update-Keeps save_config s h = config_saved-Keeps s.page.config_form s.app
  settings_update-Keeps (set_tab tab) s h = Keeps-refl s.app
  settings_update-Keeps (set_show_create_dialog open_) s h = Keeps-refl s.app
  settings_update-Keeps (set_expires_in value) s h = Keeps-refl s.app
  settings_update-Keeps (copy_key key) s h = toasted-Keeps _ (Keeps-refl s.app)
  settings_update-Keeps (delete_key id) s h =
      say-Keeps _ (codes "Failed to delete key: ") s.app _ (deleted-Keeps id s.app)
  settings_update-Keeps (set_admin_token token) s h = absurd (cc)
  settings_update-Keeps (update_rule index field) s h = Keeps-refl s.app
  settings_update-Keeps (remove_rule index) s h = Keeps-refl s.app
  settings_update-Keeps (edit field) s h = Keeps-refl s.app

-- An event that sets the token is a change of its field.
pub sets_token-cases :
    (e : SettingsEvent) → (sets_token e ≡ false) ⊎ ((token : Text) × (e ≡ set_admin_token token))
sets_token-cases refetch = inl refl
sets_token-cases create_key = inl refl
sets_token-cases add_rule = inl refl
sets_token-cases save_acl = inl refl
sets_token-cases save_config = inl refl
sets_token-cases (set_tab tab) = inl refl
sets_token-cases (set_show_create_dialog open_) = inl refl
sets_token-cases (set_expires_in value) = inl refl
sets_token-cases (copy_key key) = inl refl
sets_token-cases (delete_key id) = inl refl
sets_token-cases (update_rule index field) = inl refl
sets_token-cases (remove_rule index) = inl refl
sets_token-cases (edit field) = inl refl
sets_token-cases (set_admin_token token) = inr (token, refl)

after_create-admin_token :
    {T : Type 0} (outcome : Outcome T) (page : SettingsPage)
    → (after_create outcome page).admin_token ≡ page.admin_token
unfolding after_create
after_create-admin_token (ok value) page = refl
after_create-admin_token (err message) page = refl

-- Only the field of the token changes what it shows.
pub settings_update-admin_token :
    (r : Runner) (serve : Request → Reply) (parse : Text → Outcome (Unit {0}))
    (parse_key : Text → Outcome AuthKey) (e : SettingsEvent) (s : SettingsState)
    → sets_token e ≡ false
    → (settings_update r serve parse parse_key e s).page.admin_token ≡ s.page.admin_token
unfolding settings_update handle_create_key handle_copy_key handle_add_acl_rule update_acl_rule
    remove_acl_rule
settings_update-admin_token r serve parse parse_key create_key s h =
    after_create-admin_token _ s.page
settings_update-admin_token r serve parse parse_key (set_admin_token token) s h = absurd (cc)
settings_update-admin_token r serve parse parse_key refetch s h = refl
settings_update-admin_token r serve parse parse_key add_rule s h = refl
settings_update-admin_token r serve parse parse_key save_acl s h = refl
settings_update-admin_token r serve parse parse_key save_config s h = refl
settings_update-admin_token r serve parse parse_key (set_tab tab) s h = refl
settings_update-admin_token r serve parse parse_key (set_show_create_dialog open_) s h = refl
settings_update-admin_token r serve parse parse_key (set_expires_in value) s h = refl
settings_update-admin_token r serve parse parse_key (copy_key key) s h = refl
settings_update-admin_token r serve parse parse_key (delete_key id) s h = refl
settings_update-admin_token r serve parse parse_key (update_rule index field) s h = refl
settings_update-admin_token r serve parse parse_key (remove_rule index) s h = refl
settings_update-admin_token r serve parse parse_key (edit field) s h = refl

say-requests :
    {T : Type 0} (done failure : Text) (result : Outcome T × App)
    → (say done failure result).requests ≡ result.1.requests
unfolding say
say-requests done failure (ok value, app) = refl
say-requests done failure (err message, app) = refl

-- One request with another method than `DELETE`, or the deletion of a key.
abbrev pub SendsOne : SettingsEvent → App → App → Type 0
SendsOne e app after =
    (path : Text) × (options : Options) × (after.requests
      ≡ app.requests ++ make_request path options app.storage ∷ [])
    × ((options.method ≡ some (codes "POST"))
        ⊎ (options.method ≡ some (codes "PUT"))
        ⊎ ((id : Text) × (e ≡ delete_key id) × (path ≡ codes "/v1/admin/auth-keys/" ++ id)))

module _ (r : Runner) (serve : Request → Reply) (parse : Text → Outcome (Unit {0}))
    (parse_key : Text → Outcome AuthKey) where
  pub settings_update-requests :
      (e : SettingsEvent) (s : SettingsState)
      → let after = (settings_update r serve parse parse_key e s).app in
        (after.requests ≡ s.app.requests) ⊎ SendsOne e s.app after
  unfolding settings_update handle_save_acl handle_delete_key handle_create_key handle_copy_key
      change_admin_token
  settings_update-requests create_key s = inr (
    codes "/v1/admin/auth-keys",
    key_options (truthy s.page.new_key_expires_in),
    say-requests _ (codes "Failed to create key: ") _
        ∙ (settings_mutations-Requests r serve parse parse_key).0 (truthy s.page.new_key_expires_in)
            s.app,
    inl refl,
  )
  settings_update-requests save_acl s = inr (
    codes "/v1/admin/acl",
    rules_options s.page.acl_rules,
    say-requests _ (codes "Failed to update ACL: ") _
        ∙ (settings_mutations-Requests r serve parse parse_key).2 s.page.acl_rules s.app,
    inr (inl refl),
  )
  settings_update-requests save_config s = inr (
    codes "/v1/admin/config",
    config_options s.page.config_form,
    (settings_mutations-Requests r serve parse parse_key).3 s.page.config_form s.app,
    inr (inl refl),
  )
  settings_update-requests (delete_key id) s = inr (
    codes "/v1/admin/auth-keys/" ++ id,
    delete_options,
    say-requests _ (codes "Failed to delete key: ") _
        ∙ (settings_mutations-Requests r serve parse parse_key).1 id s.app,
    inr (inr (id, refl, refl)),
  )
  settings_update-requests refetch s = inl refl
  settings_update-requests add_rule s = inl refl
  settings_update-requests (set_tab tab) s = inl refl
  settings_update-requests (set_show_create_dialog open_) s = inl refl
  settings_update-requests (set_expires_in value) s = inl refl
  settings_update-requests (copy_key key) s = inl refl
  settings_update-requests (set_admin_token token) s = inl refl
  settings_update-requests (update_rule index field) s = inl refl
  settings_update-requests (remove_rule index) s = inl refl
  settings_update-requests (edit field) s = inl refl
