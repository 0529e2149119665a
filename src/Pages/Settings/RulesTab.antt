-- ===== src/Pages/Settings/RulesTab.antt =====
-- The tab of the access rules (web/src/pages/settings.tsx).
use karadul.Base.{
  ℕ, suc, Bool, true, false, Option, none, some, List, [], ◌∷◌, ◌++◌, if◌then◌else◌, Text, codes,
  text_eq,
}
use karadul.Api.Mutations.{RuleAction, allow, deny, AclRule, action_text}
use karadul.Pages.View.{
  Item, caption, skeleton, button, input, select, repeat, captions, error_alert, empty_state,
}
use karadul.Pages.Settings.{SettingsPage, action_field, src_field, dst_field, ports_field}
use karadul.Pages.Fields.{entries, shown_entries, ports_entries, shown_ports}
use karadul.Pages.Settings.Events.{
  SettingsEvent, refetch, add_rule, update_rule, remove_rule, save_acl,
}

-- The values of a rule's select.
abbrev action_options : List (Text × Text)
action_options = (codes "allow", codes "Allow") ∷ (codes "deny", codes "Deny") ∷ []

abbrev action_of : Text → RuleAction
action_of value = if text_eq value (codes "deny") then deny else allow

-- The controls of the rule at an index.
abbrev pub rule_row : ℕ → AclRule → List (Item SettingsEvent)
rule_row index rule =
    select (action_text rule.action) action_options
      (λ value. update_rule index (action_field (action_of value)))
    ∷ caption (codes "Source")
    ∷ input (codes "100.64.0.0/10, *") (shown_entries rule.src)
        (λ value. update_rule index (src_field (entries value)))
    ∷ caption (codes "Destination")
    ∷ input (codes "100.64.0.0/10, *") (shown_entries rule.dst)
        (λ value. update_rule index (dst_field (entries value)))
    ∷ caption (codes "Ports")
    ∷ input (codes "*, 80, 443") (shown_ports rule.ports)
        (λ value. update_rule index (ports_field (ports_entries value)))
    ∷ button (codes "Trash2") false (remove_rule index)
    ∷ []

-- The rows of the rules, counting from `i`.
abbrev pub rule_rows : ℕ → List AclRule → List (Item SettingsEvent)
rule_rows i [] = []
rule_rows i (rule ∷ rules) = rule_row i rule ++ rule_rows (suc i) rules

-- The list of the rules, in its states: an error, the loading, none, and some.
abbrev pub rules_list : Option Text → Bool → List AclRule → List (Item SettingsEvent)
rules_list (some message) loading rules =
    error_alert (codes "Failed to load ACL rules") message (some refetch)
rules_list none true rules = repeat 3 (repeat 5 (skeleton ∷ []))
rules_list none false [] =
    empty_state (codes "No ACL rules")
      (codes "Add access control rules to restrict network traffic between nodes.")
      (some (codes "Add Rule", add_rule))
rules_list none false (rule ∷ rules) = rule_rows 0 (rule ∷ rules)

-- The button that saves, which is there while there are rules. `saving` is `updateACL.isPending`.
abbrev pub save_rules : Bool → List AclRule → List (Item SettingsEvent)
save_rules saving [] = []
save_rules saving (rule ∷ rules) =
    button (if saving then codes "Saving..." else codes "Save Rules") saving save_acl ∷ []

-- The content of the tab.
unfoldable pub rules_tab : Option Text → Bool → Bool → SettingsPage → List (Item SettingsEvent)
rules_tab error loading saving page =
    captions (codes "Access Control Rules" ∷ codes "Configure network access control rules" ∷ [])
    ++ button (codes "Add Rule") false add_rule ∷ rules_list error loading page.acl_rules
    ++ save_rules saving page.acl_rules
