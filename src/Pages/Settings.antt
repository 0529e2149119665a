-- ===== src/Pages/Settings.antt =====
-- web/src/pages/settings.tsx: the state of the page and its handlers for the auth keys, the access
-- rules, the configuration form and the admin token.
pub mod Events
pub mod Effects
pub mod Syncing
pub mod Frame
pub mod KeysTab
pub mod RulesTab
pub mod GeneralTab
pub mod Rendering
pub mod Saving
pub mod Entries
pub mod Rules
pub mod Keys
use karadul.Pages.Fields.{trim_start}
use karadul.Base.{
  ℤ, pos, negate, ℕ, suc, Bool, true, false, not, ◌&&◌, ◌||◌, Option, none, some, List, [], ◌∷◌,
  ◌++◌, map, leb, ◌==◌, if◌then◌else◌, set, filter, Text, codes, join, parse_int, is_digit,
}
use karadul.Api.{
  Request, Reply, Outcome, ok, err, App, success, error, get_admin_token, set_admin_token,
}
use karadul.Api.Mutations.{
  AuthKey, RuleAction, AclRule, ServerConfig, Mutation, show_toast, delete_auth_key, update_acl,
  update_config, create_auth_key, allow,
}
use karadul.Api.Mutations.Runner.{Runner}

-- The local state of the page.
pub record SettingsPage : Type 0 where
  pub new_key_expires_in : Text
  pub show_create_dialog : Bool
  pub copied_key : Option Text
  pub acl_rules : List AclRule
  pub config_form : ServerConfig
  pub admin_token : Text

abbrev any_text : Text
any_text = codes "*"

-- `handleAddACLRule()`
unfoldable pub handle_add_acl_rule : SettingsPage → SettingsPage
handle_add_acl_rule page =
    let rule : AclRule = record {
      action = allow;
      src = any_text ∷ [];
      dst = any_text ∷ [];
      ports = none;
    } in
    record page { acl_rules = page.acl_rules ++ rule ∷ [] }

-- A field of a rule with its new value.
pub data RuleField : Type 0 where
  action_field : RuleAction → RuleField
  src_field dst_field : List Text → RuleField
  ports_field : Option (List Text) → RuleField

abbrev pub with_field : RuleField → AclRule → AclRule
with_field (action_field action) rule = record rule { action = action }
with_field (src_field src) rule = record rule { src = src }
with_field (dst_field dst) rule = record rule { dst = dst }
with_field (ports_field ports) rule = record rule { ports = ports }

-- `prev.map((rule, i) => …)` and `prev.filter((_, i) => …)`, counting from `i`.
map_from : (ℕ → AclRule → AclRule) → ℕ → List AclRule → List AclRule
map_from f i [] = []
map_from f i (rule ∷ rules) = f i rule ∷ map_from f (suc i) rules

filter_from : (ℕ → Bool) → ℕ → List AclRule → List AclRule
filter_from p i [] = []
filter_from p i (rule ∷ rules) =
    let rest = filter_from p (suc i) rules in if p i then rule ∷ rest else rest

-- `updateACLRule(index, field, value)`
unfoldable pub update_acl_rule : ℕ → RuleField → SettingsPage → SettingsPage
unfolding map_from
update_acl_rule index field page = record page {
  acl_rules =
      map_from (λ i rule. if i == index then with_field field rule else rule) 0 page.acl_rules;
}

-- `removeACLRule(index)`
unfoldable pub remove_acl_rule : ℕ → SettingsPage → SettingsPage
unfolding filter_from
remove_acl_rule index page = record page {
  acl_rules = filter_from (λ i. not (i == index)) 0 page.acl_rules;
}

-- The two effects that take over what the queries brought, run when its JSON text has changed.
unfoldable pub sync_config : Option ServerConfig → SettingsPage → SettingsPage
sync_config none page = page
sync_config (some config) page = record page { config_form = config }

unfoldable pub sync_acl_rules : Option (List AclRule) → SettingsPage → SettingsPage
sync_acl_rules none page = page
sync_acl_rules (some rules) page = record page { acl_rules = rules }

-- `handleCopyKey(key)`: the clipboard's text, and the timer that takes the mark away later.
unfoldable pub handle_copy_key : Text → SettingsPage × App → Text × SettingsPage × App
handle_copy_key key (page, app) = (
  key,
  record page { copied_key = some key },
  show_toast (success (codes "Key copied to clipboard")) app,
)

unfoldable pub copied_timeout : SettingsPage → SettingsPage
copied_timeout page = record page { copied_key = none }

-- The handlers that await a mutation; an error is a toast.
say : {T : Type 0} → Text → Text → Outcome T × App → App
say done failure (ok value, app) = show_toast (success done) app
say done failure (err message, app) = show_toast (error (failure ++ message)) app

truthy : Text → Option Text
truthy [] = none
truthy (c ∷ s) = some (c ∷ s)

after_create : {T : Type 0} → Outcome T → SettingsPage → SettingsPage
after_create (ok value) page = record page { show_create_dialog = false; new_key_expires_in = [] }
after_create (err message) page = page

module _ (r : Runner) (serve : Request → Reply) where
  open r use {mutate_async}

  -- `handleSaveACL()`
  unfoldable pub handle_save_acl : (Text → Outcome (Unit {0})) → SettingsPage → App → App
  unfolding say
  handle_save_acl parse page app =
      say (codes "ACL rules updated successfully") (codes "Failed to update ACL: ")
        (mutate_async (List AclRule) (Unit {0}) (update_acl serve parse) page.acl_rules app)

  -- `handleDeleteKey(id)`
  unfoldable pub handle_delete_key : (Text → Outcome (Unit {0})) → Text → App → App
  unfolding say
  handle_delete_key parse id app =
      say (codes "Authentication key deleted successfully") (codes "Failed to delete key: ")
        (mutate_async Text (Unit {0}) (delete_auth_key serve parse) id app)

  -- `handleCreateKey()`
  unfoldable pub handle_create_key :
      (Text → Outcome AuthKey) → SettingsPage × App → SettingsPage × App
  unfolding say truthy after_create
  handle_create_key parse (page, app) =
      let result =
        mutate_async (Option Text) AuthKey (create_auth_key serve parse)
          (truthy page.new_key_expires_in) app in
      (
        after_create result.0 page,
        say (codes "Authentication key created successfully") (codes "Failed to create key: ")
            result,
      )

-- The configuration form: an edited field is set to the text of its input.
pub data ConfigField : Type 0 where
  addr_field subnet_field approval_mode_field log_level_field rate_limit_field : Text → ConfigField

-- `parseInt(value, 10) || 0`: white space, a sign, and the digits up to anything else; without
-- digits it is 0.
abbrev digits_of : Text → Text
digits_of [] = []
digits_of (c ∷ s) = let rest = digits_of s in if is_digit c then c ∷ rest else []

abbrev signed : Text → ℤ
signed [] = pos 0
signed (c ∷ s) =
    if c == b'-'
    then negate (parse_int (digits_of s))
    else if c == b'+'
    then pos (parse_int (digits_of s))
    else pos (parse_int (digits_of (c ∷ s)))

unfoldable pub edit_config : ConfigField → ServerConfig → ServerConfig
edit_config (addr_field value) config = record config { addr = some value }
edit_config (subnet_field value) config = record config { subnet = some value }
edit_config (approval_mode_field value) config = record config { approval_mode = some value }
edit_config (log_level_field value) config = record config { log_level = some value }
edit_config (rate_limit_field value) config = record config {
  rate_limit = some (signed (trim_start value));
}

-- The change of the token field: the shown text and the stored token.
unfoldable pub change_admin_token : Text → SettingsPage × App → SettingsPage × App
unfolding set_admin_token
change_admin_token token (page, app) = (
  record page { admin_token = token },
  record app { storage = set_admin_token token app.storage },
)
