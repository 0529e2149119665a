-- ===== src/Pages/Settings/Events.antt =====
-- What the controls of the settings page (web/src/pages/settings.tsx) do.
use karadul.Base.{ℕ, Bool, Text}
use karadul.Api.{Request, Reply, Outcome, App}
use karadul.Api.Mutations.{AuthKey, ServerConfig, update_config}
use karadul.Api.Mutations.Runner.{Runner}
use karadul.Pages.Settings.{
  SettingsPage, handle_add_acl_rule, RuleField, update_acl_rule, remove_acl_rule, handle_copy_key,
  handle_save_acl, handle_delete_key, handle_create_key, ConfigField, edit_config,
  change_admin_token,
}

pub data Tab : Type 0 where
  auth_keys acl general : Tab

pub data SettingsEvent : Type 0 where
  refetch create_key add_rule save_acl save_config : SettingsEvent
  set_tab : Tab → SettingsEvent
  set_show_create_dialog : Bool → SettingsEvent
  set_expires_in copy_key delete_key set_admin_token : Text → SettingsEvent
  update_rule : ℕ → RuleField → SettingsEvent
  remove_rule : ℕ → SettingsEvent
  edit : ConfigField → SettingsEvent

-- The page with its tab, over the state that the hooks share.
pub record SettingsState : Type 0 where
  pub tab : Tab
  pub page : SettingsPage
  pub app : App

abbrev with_page : (SettingsPage → SettingsPage) → SettingsState → SettingsState
with_page f s = record s { page = f s.page }

abbrev with_both : (SettingsPage × App → SettingsPage × App) → SettingsState → SettingsState
with_both f s = let result = f (s.page, s.app) in record s { page = result.0; app = result.1 }

-- What an event does. `updateConfig.mutate` is the mutation without a wait for its result.
unfoldable pub settings_update :
    Runner
    → (Request → Reply)
    → (Text → Outcome (Unit {0}))
    → (Text → Outcome AuthKey)
    → SettingsEvent
    → SettingsState
    → SettingsState
unfolding handle_add_acl_rule update_acl_rule remove_acl_rule handle_copy_key handle_save_acl
    handle_delete_key handle_create_key edit_config change_admin_token
settings_update r serve parse parse_key refetch s = s
settings_update r serve parse parse_key create_key s =
    with_both (handle_create_key r serve parse_key) s
settings_update r serve parse parse_key add_rule s = with_page handle_add_acl_rule s
settings_update r serve parse parse_key save_acl s = record s {
  app = handle_save_acl r serve parse s.page s.app;
}
settings_update r serve parse parse_key save_config s = record s {
  app =
      (r.mutate_async ServerConfig (Unit {0}) (update_config serve parse) s.page.config_form
        s.app).1;
}
settings_update r serve parse parse_key (set_tab tab) s = record s { tab = tab }
settings_update r serve parse parse_key (set_show_create_dialog open_) s =
    with_page (λ (page : SettingsPage). record page { show_create_dialog = open_ }) s
settings_update r serve parse parse_key (set_expires_in value) s =
    with_page (λ (page : SettingsPage). record page { new_key_expires_in = value }) s
settings_update r serve parse parse_key (copy_key key) s =
    with_both
      (λ (both : SettingsPage × App).
        let (copied, page, app) = handle_copy_key key both in (page, app))
      s
settings_update r serve parse parse_key (delete_key id) s = record s {
  app = handle_delete_key r serve parse id s.app;
}
settings_update r serve parse parse_key (set_admin_token token) s =
    with_both (change_admin_token token) s
settings_update r serve parse parse_key (update_rule index field) s =
    with_page (update_acl_rule index field) s
settings_update r serve parse parse_key (remove_rule index) s = with_page (remove_acl_rule index) s
settings_update r serve parse parse_key (edit field) s =
    with_page
      (λ (page : SettingsPage). record page { config_form = edit_config field page.config_form }) s
