-- ===== src/Pages/Settings/Effects.antt =====
-- The effects of the settings page (web/src/pages/settings.tsx) that take over what the queries brought.
-- React runs an effect after the first rendering, and after a later one if its dependency has changed.
use karadul.Base.{
  ℕ, zero, suc, Bool, true, false, not, ◌||◌, Option, none, some, List, [], ◌∷◌, map, if◌then◌else◌,
  Text, text_eq,
}
use karadul.Json.{array, items_of, stringify}
use karadul.Api.Mutations.{AclRule, ServerConfig, rule_json, config_json}
use karadul.Api.Queries.{AclReply}
use karadul.Pages.Settings.{SettingsPage, sync_config, sync_acl_rules}
use karadul.Pages.Settings.Events.{SettingsEvent, SettingsState}

-- `JSON.stringify(configData)` and `JSON.stringify(aclData?.rules)`; of `undefined` it is `undefined`.
abbrev pub config_text : Option ServerConfig → Option Text
config_text none = none
config_text (some config) = some (stringify 0 (config_json config))

abbrev pub rules_text : Option AclReply → Option Text
rules_text none = none
rules_text (some reply) = some (stringify 0 (array (items_of (map rule_json reply.rules))))

-- The dependency of the last run of each effect, if there was one.
pub record Effects : Type 0 where
  pub config_seen : Option (Option Text)
  pub rules_seen : Option (Option Text)

abbrev pub unmounted : Effects
unmounted = record { config_seen = none; rules_seen = none }

abbrev pub same_text : Option Text → Option Text → Bool
same_text none none = true
same_text none (some s) = false
same_text (some s) none = false
same_text (some s) (some t) = text_eq s t

abbrev pub is_stale : Option (Option Text) → Option Text → Bool
is_stale none now = true
is_stale (some before) now = not (same_text before now)

abbrev pub rules_of : Option AclReply → Option (List AclRule)
rules_of none = none
rules_of (some reply) = some reply.rules

-- The effects after a rendering, with whether one of them ran.
unfoldable pub commit :
    Option ServerConfig → Option AclReply → Effects × SettingsPage → Bool × Effects × SettingsPage
unfolding sync_config sync_acl_rules
commit config reply (seen, page) =
    let config_runs = is_stale seen.config_seen (config_text config) in
    let rules_run = is_stale seen.rules_seen (rules_text reply) in
    let synced = if config_runs then sync_config config page else page in
    (
      config_runs || rules_run,
      record { config_seen = some (config_text config); rules_seen = some (rules_text reply) },
      if rules_run then sync_acl_rules (rules_of reply) synced else synced,
    )

-- The page is rendered again after a run of an effect, which may have set its state; `none` is a loop
-- that has not ended with the fuel.
unfoldable pub render :
    ℕ
    → Option ServerConfig
    → Option AclReply
    → Effects × SettingsPage
    → Option (Effects × SettingsPage)
unfolding commit
render zero config reply s = none
render (suc fuel) config reply s =
    let (ran, seen, page) = commit config reply s in
    let again = render fuel config reply (seen, page) in if ran then again else some (seen, page)

-- A session of the page, rendered after each event with the data of the queries.
unfoldable pub rendered_session :
    (SettingsEvent → SettingsState → SettingsState)
    → Option ServerConfig
    → Option AclReply
    → List SettingsEvent
    → Effects × SettingsState
    → Effects × SettingsState
unfolding commit
rendered_session update config reply [] s = s
rendered_session update config reply (e ∷ events) (seen, s) =
    let next = update e s in
    let (ran, seen_now, page) = commit config reply (seen, next.page) in
    rendered_session update config reply events (seen_now, record next { page = page })
