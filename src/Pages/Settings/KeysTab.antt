-- ===== src/Pages/Settings/KeysTab.antt =====
-- The tab of the keys (web/src/pages/settings.tsx).
use karadul.Base.{
  ℕ, zero, suc, Bool, true, false, Option, none, some, List, [], ◌∷◌, ◌++◌, if◌then◌else◌, Text,
  codes, text_eq,
}
use karadul.Api.Mutations.{AuthKey}
use karadul.Pages.View.{
  Platform, Query, Item, caption, badge, skeleton, button, select, flat_map, repeat, captions,
  empty_state,
}
use karadul.Pages.Settings.{SettingsPage}
use karadul.Pages.Settings.Events.{
  SettingsEvent, set_show_create_dialog, set_expires_in, create_key, copy_key, delete_key,
}

-- The values that the dialog has for the expiry.
abbrev pub expiry_options : List (Text × Text)
expiry_options =
    ([], codes "Never expires")
    ∷ (codes "1h", codes "1 hour")
    ∷ (codes "24h", codes "24 hours")
    ∷ (codes "7d", codes "7 days")
    ∷ (codes "30d", codes "30 days")
    ∷ (codes "90d", codes "90 days")
    ∷ []

-- The dialog that creates a key. `creating` is `createAuthKey.isPending`.
abbrev pub create_dialog : Bool → SettingsPage → List (Item SettingsEvent)
create_dialog creating page =
    if page.show_create_dialog
    then captions (
        codes "Create Auth Key"
        ∷ codes "Create a new authentication key for node enrollment"
        ∷ codes "Expiration"
        ∷ [])
      ++ select page.new_key_expires_in expiry_options set_expires_in
        ∷ button (codes "Cancel") false (set_show_create_dialog false)
        ∷ button (codes "Create") creating create_key
        ∷ button (codes "Close") false (set_show_create_dialog false)
        ∷ []
    else []

abbrev pub key_columns : List (Item SettingsEvent)
key_columns =
    captions
      (codes "Key" ∷ codes "Created" ∷ codes "Expires" ∷ codes "Used By" ∷ codes "Actions" ∷ [])

-- `AuthKeySkeleton`
abbrev pub auth_key_skeleton : List (Item SettingsEvent)
auth_key_skeleton = repeat 5 (skeleton ∷ [])

-- `s.slice(0, n)`
abbrev pub slice : ℕ → Text → Text
slice zero s = []
slice (suc n) [] = []
slice (suc n) (c ∷ s) = c ∷ slice n s

abbrev pub is_copied : Option Text → Text → Bool
is_copied none key = false
is_copied (some copied) key = text_eq copied key

module _ (js : Platform) where
  open js use {format_date}

  abbrev pub expires_item : Option Text → Item SettingsEvent
  expires_item none = badge (codes "Never")
  expires_item (some []) = badge (codes "Never")
  expires_item (some (c ∷ time)) = caption (format_date (c ∷ time))

  -- The row of a key. `busy` is `deleteAuthKey.isPending`.
  abbrev pub key_row : Bool → Option Text → AuthKey → List (Item SettingsEvent)
  key_row busy copied key =
      caption (slice 20 key.key ++ codes "...")
        ∷ button (codes "Copy") false (copy_key key.key)
        ∷ (if is_copied copied key.key then badge (codes "Copied!") ∷ [] else [])
      ++ (caption (format_date key.created_at)
          ∷ expires_item key.expires_at
          ∷ (if key.used then badge (codes "Used") else caption (codes "Unused"))
          ∷ button (codes "Trash2") busy (delete_key key.id)
          ∷ [])

  -- The list of the keys, in its states.
  abbrev pub keys_table :
      Bool → Bool → Option Text → Option (List AuthKey) → List (Item SettingsEvent)
  keys_table true busy copied keys = key_columns ++ repeat 3 auth_key_skeleton
  keys_table false busy copied (some []) =
      empty_state (codes "No auth keys")
        (codes "Create an authentication key to allow new nodes to join your mesh network.")
        (some (codes "Create Key", set_show_create_dialog true))
  keys_table false busy copied none = key_columns
  keys_table false busy copied (some (key ∷ keys)) =
      key_columns ++ flat_map (key_row busy copied) (key ∷ keys)

  -- The content of the tab.
  unfoldable pub keys_tab :
      Query (List AuthKey) → Bool → Bool → SettingsPage → List (Item SettingsEvent)
  keys_tab query creating busy page =
      captions (codes "Authentication Keys" ∷ codes "Manage authentication keys for new nodes" ∷ [])
      ++ button (codes "Create Key") false (set_show_create_dialog true)
        ∷ create_dialog creating page
      ++ keys_table query.is_loading busy page.copied_key query.data_
