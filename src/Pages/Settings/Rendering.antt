-- ===== src/Pages/Settings/Rendering.antt =====
-- What the settings page (web/src/pages/settings.tsx) renders.
use karadul.Base.{Bool, false, Option, none, some, List, [], ◌∷◌, ◌++◌, Text, codes}
use karadul.Api.Mutations.{AuthKey}
use karadul.Pages.View.{Platform, Query, Item, button, captions, error_alert}
use karadul.Pages.Settings.{SettingsPage}
use karadul.Pages.Settings.Events.{
  Tab, auth_keys, acl, general, SettingsEvent, refetch, set_tab, SettingsState,
}
use karadul.Pages.Settings.KeysTab.{keys_tab}
use karadul.Pages.Settings.RulesTab.{rules_tab}
use karadul.Pages.Settings.GeneralTab.{general_tab}

-- The queries behind the page, and which mutations are under way.
pub record SettingsQueries : Type 0 where
  pub keys : Query (List AuthKey)
  pub acl_error : Option Text
  pub acl_loading : Bool
  pub config_loading : Bool
  pub creating_key : Bool
  pub deleting_key : Bool
  pub saving_acl : Bool
  pub saving_config : Bool

abbrev pub settings_title : List (Item SettingsEvent)
settings_title = captions (codes "Settings" ∷ codes "Configure your Karadul mesh network" ∷ [])

-- The title, the button that fetches again, and the tabs.
abbrev pub settings_toolbar : Bool → List (Item SettingsEvent)
settings_toolbar loading =
    settings_title
    ++ button (codes "RefreshCw") loading refetch
      ∷ button (codes "Auth Keys") false (set_tab auth_keys)
      ∷ button (codes "ACL Rules") false (set_tab acl)
      ∷ button (codes "General") false (set_tab general)
      ∷ []

-- The content of the chosen tab.
abbrev pub tab_content : Platform → SettingsQueries → Tab → SettingsPage → List (Item SettingsEvent)
tab_content js q auth_keys page = keys_tab js q.keys q.creating_key q.deleting_key page
tab_content js q acl page = rules_tab q.acl_error q.acl_loading q.saving_acl page
tab_content js q general page = general_tab q.config_loading q.saving_config page

-- `SettingsPage`
unfoldable pub settings_page :
    Platform → SettingsQueries → SettingsState → List (Item SettingsEvent)
settings_page js q s = elim q.keys.error [
  | some message ↦
      settings_title ++ error_alert (codes "Failed to load settings") message (some refetch)
  | none ↦ settings_toolbar q.keys.is_loading ++ tab_content js q s.tab s.page
]
