-- ===== src/Pages/Settings/GeneralTab.antt =====
-- The tab of the general settings and the admin token (web/src/pages/settings.tsx).
use karadul.Base.{
  Bool, true, false, Option, none, some, List, [], ◌∷◌, ◌++◌, if◌then◌else◌, Text, codes, ℤ,
  show_integer,
}
use karadul.Api.Mutations.{ServerConfig}
use karadul.Pages.View.{Item, caption, skeleton, button, input, select, repeat, captions, or_text}
use karadul.Pages.Settings.{
  SettingsPage, addr_field, subnet_field, approval_mode_field, log_level_field, rate_limit_field,
}
use karadul.Pages.Settings.Events.{SettingsEvent, edit, save_config, set_admin_token}

-- `configForm.rate_limit ?? 100`
abbrev rate_limit_text : Option ℤ → Text
rate_limit_text none = codes "100"
rate_limit_text (some n) = show_integer n

-- The form of the configuration. `saving` is `updateConfig.isPending`.
abbrev pub config_items : Bool → ServerConfig → List (Item SettingsEvent)
config_items saving config =
    caption (codes "Listen Address")
    ∷ input (codes ":8080") (or_text config.addr []) (λ value. edit (addr_field value))
    ∷ caption (codes "CGNAT Subnet")
    ∷ input (codes "100.64.0.0/10") (or_text config.subnet []) (λ value. edit (subnet_field value))
    ∷ caption (codes "Approval Mode")
    ∷ select (or_text config.approval_mode (codes "auto"))
        ((codes "auto", codes "Auto-approve") ∷ (codes "manual", codes "Manual approval") ∷ [])
        (λ value. edit (approval_mode_field value))
    ∷ caption (codes "Log Level")
    ∷ select (or_text config.log_level (codes "info"))
        ((codes "debug", codes "Debug")
          ∷ (codes "info", codes "Info")
          ∷ (codes "warn", codes "Warn")
          ∷ (codes "error", codes "Error")
          ∷ [])
        (λ value. edit (log_level_field value))
    ∷ caption (codes "Rate Limit (req/s, 0=disabled)")
    ∷ input (codes "100") (rate_limit_text config.rate_limit)
        (λ value. edit (rate_limit_field value))
    ∷ button (if saving then codes "Saving..." else codes "Save Changes") saving save_config
    ∷ []

abbrev pub general_items : Bool → Bool → ServerConfig → List (Item SettingsEvent)
general_items true saving config = repeat 3 (skeleton ∷ [])
general_items false saving config = config_items saving config

-- The field of the admin token.
abbrev pub token_items : Text → List (Item SettingsEvent)
token_items token =
    captions (
      codes "Admin Authentication"
      ∷ (codes "Enter the admin token if the server is configured with admin_secret. "
          ++ codes "This token is sent with all admin API requests.")
      ∷ codes "Admin Token"
      ∷ [])
    ++ input (codes "Enter admin secret token") token set_admin_token
      ∷ caption (
          codes "Leave empty if the server has no admin_secret configured. "
          ++ codes "The token is stored in your browser's local storage.")
      ∷ []

-- The content of the tab.
unfoldable pub general_tab : Bool → Bool → SettingsPage → List (Item SettingsEvent)
general_tab loading saving page =
    captions (codes "General Settings" ∷ codes "Configure general network settings" ∷ [])
    ++ (general_items loading saving page.config_form ++ token_items page.admin_token)
