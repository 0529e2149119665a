-- ===== src/Pages/Settings/Saving.antt =====
-- When the settings page (web/src/pages/settings.tsx) lets the user save the access rules.
use karadul.Base.{
  ℕ, suc, ◌≡◌, refl, ◌≢◌, inl, inr, Bool, true, false, Option, none, some, List, [], ◌∷◌, ◌++◌,
  arith, if◌then◌else◌, Text, codes,
}
use karadul.Api.Mutations.{AuthKey, AclRule, ServerConfig}
use karadul.Pages.View.{
  Platform, Query, Item, caption, badge, skeleton, button, OfferedIn, OfferedIn-append,
  OfferedIn-append_after, OfferedIn-repeat, OfferedIn-flat_map, skeletons_inert, flat_map, repeat,
  error_alert,
}
use karadul.Pages.Settings.{SettingsPage}
use karadul.Pages.Settings.Events.{
  Tab, auth_keys, acl, general, SettingsEvent, refetch, save_acl, delete_key, SettingsState,
}
use karadul.Pages.Settings.KeysTab.{
  create_dialog, key_columns, auth_key_skeleton, is_copied, expires_item, key_row, keys_table,
  keys_tab,
}
use karadul.Pages.Settings.RulesTab.{rule_row, rule_rows, rules_list, save_rules, rules_tab}
use karadul.Pages.Settings.GeneralTab.{general_items, token_items, general_tab}
use karadul.Pages.Settings.Rendering.{
  SettingsQueries, settings_title, settings_toolbar, tab_content, settings_page,
}

-- A row of the keys, the flags of which are split.
copied_inert :
    (flag : Bool) (rest : List (Item SettingsEvent))
    → OfferedIn ((if flag then badge (codes "Copied!") ∷ [] else []) ++ rest) save_acl
    → OfferedIn rest save_acl
copied_inert true rest (inl h) = elim h [ ]
copied_inert true rest (inr h) = h
copied_inert false rest h = h

expires_inert :
    (js : Platform) (time : Option Text) (rest : List (Item SettingsEvent))
    → OfferedIn (expires_item js time ∷ rest) save_acl
    → OfferedIn rest save_acl
expires_inert js none rest (inr h) = h
expires_inert js (some []) rest (inr h) = h
expires_inert js (some (c ∷ time)) rest (inr h) = h
expires_inert js none rest (inl h) = elim h [ ]
expires_inert js (some []) rest (inl h) = elim h [ ]
expires_inert js (some (c ∷ time)) rest (inl h) = elim h [ ]

used_inert :
    (used : Bool) (rest : List (Item SettingsEvent))
    → OfferedIn ((if used then badge (codes "Used") else caption (codes "Unused")) ∷ rest) save_acl
    → OfferedIn rest save_acl
used_inert true rest (inr h) = h
used_inert false rest (inr h) = h
used_inert true rest (inl h) = elim h [ ]
used_inert false rest (inl h) = elim h [ ]

key_row_no_save :
    (js : Platform) (busy : Bool) (copied : Option Text) (key : AuthKey)
    → OfferedIn (key_row js busy copied key) save_acl
    → ⊥
key_row_no_save js busy copied key (inl h) = h
key_row_no_save js busy copied key (inr (inl h)) = ground arith
key_row_no_save js busy copied key (inr (inr h)) =
    let end = button (codes "Trash2") busy (delete_key key.id) ∷ [] in
    let use_item = if key.used then badge (codes "Used") else caption (codes "Unused") in
    elim (copied_inert (is_copied copied key.key) _ h) [
      | inl h ↦ h
      | inr h ↦
          let last : OfferedIn end save_acl =
            used_inert key.used end (expires_inert js key.expires_at (use_item ∷ end) h) in
          ground arith
    ]

columns_no_save :
    (rest : List (Item SettingsEvent))
    → OfferedIn (key_columns ++ rest) save_acl
    → OfferedIn rest save_acl
columns_no_save rest h = OfferedIn-append_after key_columns rest save_acl (λ head. ground arith) h

table_no_save :
    (js : Platform) (loading busy : Bool) (copied : Option Text) (keys : Option (List AuthKey))
    → OfferedIn (keys_table js loading busy copied keys) save_acl
    → ⊥
table_no_save js true busy copied keys h =
    skeletons_inert 5 save_acl (
      OfferedIn-repeat 3 auth_key_skeleton save_acl
        (columns_no_save (repeat 3 auth_key_skeleton) h))
table_no_save js false busy copied none h = ground arith
table_no_save js false busy copied (some []) h = ground arith
table_no_save js false busy copied (some (key ∷ keys)) h =
    let (other, row) =
      OfferedIn-flat_map (key_row js busy copied) (key ∷ keys) save_acl
        (columns_no_save (flat_map (key_row js busy copied) (key ∷ keys)) h) in
    key_row_no_save js busy copied other row

dialog_no_save :
    (creating : Bool) (page : SettingsPage) → OfferedIn (create_dialog creating page) save_acl → ⊥
dialog_no_save creating page h = ground arith

keys_no_save :
    (js : Platform) (q : Query (List AuthKey)) (creating busy : Bool) (page : SettingsPage)
    → OfferedIn (keys_tab js q creating busy page) save_acl
    → ⊥
unfolding keys_tab
keys_no_save js q creating busy page (inl h) = h
keys_no_save js q creating busy page (inr (inl h)) = h
keys_no_save js q creating busy page (inr (inr (inl h))) = ground arith
keys_no_save js q creating busy page (inr (inr (inr h))) =
    let table = keys_table js q.is_loading busy page.copied_key q.data_ in
    table_no_save js q.is_loading busy page.copied_key q.data_ (
      OfferedIn-append_after (create_dialog creating page) table save_acl
        (dialog_no_save creating page) h)

rule_row_no_save : (i : ℕ) (rule : AclRule) → OfferedIn (rule_row i rule) save_acl → ⊥
rule_row_no_save i rule h = ground arith

rule_rows_no_save : (i : ℕ) (rules : List AclRule) → OfferedIn (rule_rows i rules) save_acl → ⊥
rule_rows_no_save i [] h = h
rule_rows_no_save i (rule ∷ rules) h =
    elim (OfferedIn-append (rule_row i rule) (rule_rows (suc i) rules) save_acl h) [
      | inl h ↦ rule_row_no_save i rule h
      | inr h ↦ rule_rows_no_save (suc i) rules h
    ]

rules_no_save :
    (error : Option Text) (loading : Bool) (rules : List AclRule)
    → OfferedIn (rules_list error loading rules) save_acl
    → ⊥
rules_no_save (some message) loading rules h = ground arith
rules_no_save none true rules h =
    skeletons_inert 5 save_acl (OfferedIn-repeat 3 (repeat 5 (skeleton ∷ [])) save_acl h)
rules_no_save none false [] h = ground arith
rules_no_save none false (rule ∷ rules) h = rule_rows_no_save 0 (rule ∷ rules) h

save_rules-save :
    (saving : Bool) (rules : List AclRule)
    → OfferedIn (save_rules saving rules) save_acl
    → (saving ≡ false) × (rules ≢ [])
save_rules-save saving [] h = elim h [ ]
save_rules-save saving (rule ∷ rules) h = (ground arith, λ e. cc)

rules_tab-save :
    (error : Option Text) (loading saving : Bool) (page : SettingsPage)
    → OfferedIn (rules_tab error loading saving page) save_acl
    → (saving ≡ false) × (page.acl_rules ≢ [])
unfolding rules_tab
rules_tab-save error loading saving page (inl h) = elim h [ ]
rules_tab-save error loading saving page (inr (inl h)) = elim h [ ]
rules_tab-save error loading saving page (inr (inr (inl h))) = absurd (ground arith)
rules_tab-save error loading saving page (inr (inr (inr h))) =
    save_rules-save saving page.acl_rules (
      OfferedIn-append_after (rules_list error loading page.acl_rules)
        (save_rules saving page.acl_rules) save_acl (rules_no_save error loading page.acl_rules) h)

general_no_save :
    (loading saving : Bool) (page : SettingsPage)
    → OfferedIn (general_tab loading saving page) save_acl
    → ⊥
unfolding general_tab
general_no_save loading saving page (inl h) = h
general_no_save loading saving page (inr (inl h)) = h
general_no_save loading saving page (inr (inr h)) =
    elim (OfferedIn-append (general_items loading saving page.config_form)
      (token_items page.admin_token) save_acl h) [
        | inl h ↦ items_no_save loading saving page.config_form h
        | inr h ↦ ground arith
      ]
  where
    items_no_save :
        (loading saving : Bool) (config : ServerConfig)
        → OfferedIn (general_items loading saving config) save_acl
        → ⊥
    items_no_save true saving config h = skeletons_inert 3 save_acl h
    items_no_save false saving config h = ground arith

tab-save :
    (js : Platform) (q : SettingsQueries) (tab : Tab) (page : SettingsPage)
    → OfferedIn (tab_content js q tab page) save_acl
    → (tab ≡ acl) × (q.saving_acl ≡ false) × (page.acl_rules ≢ [])
tab-save js q auth_keys page h =
    absurd (keys_no_save js q.keys q.creating_key q.deleting_key page h)
tab-save js q acl page h =
    let (idle, filled) = rules_tab-save q.acl_error q.acl_loading q.saving_acl page h in
    (refl, idle, filled)
tab-save js q general page h = absurd (general_no_save q.config_loading q.saving_config page h)

error_no_save :
    (error : Option Text) (content : List (Item SettingsEvent))
    → OfferedIn
        (elim error [
          | some message ↦
              settings_title ++ error_alert (codes "Failed to load settings") message (some refetch)
          | none ↦ content
        ])
        save_acl
    → OfferedIn content save_acl
error_no_save none content h = h
error_no_save (some message) content h = absurd (ground arith)

-- The page lets the user save the access rules only on their tab, while no save is under way, and only
-- while there is a rule: a list that the user has emptied cannot be saved.
pub save_acl-OfferedIn :
    (js : Platform) (q : SettingsQueries) (s : SettingsState)
    → OfferedIn (settings_page js q s) save_acl
    → (s.tab ≡ acl) × (q.saving_acl ≡ false) × (s.page.acl_rules ≢ [])
unfolding settings_page
save_acl-OfferedIn js q s h =
    let content = tab_content js q s.tab s.page in
    let inside = error_no_save q.keys.error (settings_toolbar q.keys.is_loading ++ content) h in
    tab-save js q s.tab s.page (
      OfferedIn-append_after (settings_toolbar q.keys.is_loading) content save_acl
        (λ head. ground arith) inside)
