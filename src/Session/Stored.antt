-- ===== src/Session/Stored.antt =====
-- What the running dashboard keeps in the local storage: the admin token and the theme.
use karadul.Base.{
  ℕ, ◌≡◌, refl, sym, ap, ◌∙◌, inl, inr, Bool, true, false, ◌&&◌, List, [], ◌∷◌, arith, any, Text,
  codes, text_eq,
}
use karadul.Storage.{Storage, get_item, get_item-remove_item, get_item-set_item}
use karadul.Theme.{set_theme}
use karadul.Api.{Reply, App, admin_token_key, set_admin_token}
use karadul.Api.Mutations.Runner.{Runner}
use karadul.Shell.{
  Page, ShellEvent, set_mobile_menu_open, follow, follow_and_close, leave, choose_theme,
  notifications, go_back, ShellState, dashboard, topology, nodes, peers, settings, shell_update,
}
use karadul.Pages.Nodes.Rendering.{NodesEvent}
use karadul.Pages.Nodes.Frame.{chooses-cases, nodes_update-Keeps}
use karadul.Pages.Nodes.Offers.{nodes_update}
use karadul.Pages.Settings.{change_admin_token}
use karadul.Pages.Settings.Events.{SettingsEvent, SettingsState, settings_update}
use karadul.Pages.Settings.Frame.{sets_token, sets_token-cases, settings_update-Keeps}
use karadul.Session
use karadul.Session.Polls.{arrive-Arrived}
use karadul.Api.Polls.{Coordinator, send_poll}
use karadul.Session.Cases.{on_page_elim, shell_move_elim}
use karadul.Session.{
  Move, sends, arrives, message, at_shell, at_dashboard, render_settings, at_nodes, at_peers,
  at_topology, at_settings, World, arrive, same_page, mount_pages, shell_of, with_shell, with_app,
  at_dashboard_move, render_settings_move, at_peers_move, at_topology_move, shell_move, on_page,
  at_nodes_move, at_settings_move, step,
}

abbrev pub theme_key : Text
theme_key = codes "karadul-theme"

-- The moves that may write the item of a key.
abbrev pub sets_theme : ShellEvent → Bool
sets_theme (choose_theme theme) = true
sets_theme _ = false

abbrev pub may_write : Text → Move → Bool
may_write key (at_shell back e) = sets_theme e && text_eq theme_key key
may_write key (at_settings c e) = sets_token e && text_eq admin_token_key key
may_write key _ = false

pub shell_update-get_item :
    (key back : Text) (e : ShellEvent) (s : ShellState)
    → (sets_theme e && text_eq theme_key key) ≡ false
    → get_item key (shell_update back e s).storage ≡ get_item key s.storage
unfolding shell_update set_theme
shell_update-get_item key back (set_mobile_menu_open open_) s h = refl
shell_update-get_item key back (follow href) s h = refl
shell_update-get_item key back (follow_and_close href) s h = refl
shell_update-get_item key back (leave url) s h = refl
shell_update-get_item key back notifications s h = refl
shell_update-get_item key back go_back s h = refl
shell_update-get_item key back (choose_theme theme) s h =
    ground (arith, get_item-set_item theme_key key theme s.storage)

set_admin_token-get_item :
    (key token : Text) (storage : Storage)
    → text_eq admin_token_key key ≡ false
    → get_item key (set_admin_token token storage) ≡ get_item key storage
unfolding set_admin_token
set_admin_token-get_item key [] storage h =
    ground (arith, get_item-remove_item admin_token_key key storage)
set_admin_token-get_item key (c ∷ token) storage h =
    ground (arith, get_item-set_item admin_token_key key (c ∷ token) storage)

pub arrive-storage :
    (c : Coordinator) (reply : Reply) (time : Text) (i : ℕ) (w : World)
    → (arrive c reply time i w).app.storage ≡ w.app.storage
arrive-storage c reply time i w = ap App.storage (arrive-Arrived c reply time i w).1

module _ (match : Text → Text → Bool) (r : Runner) where
  on_page-get_item :
      (key : Text) (page : Page) (f : World → World) (w : World)
      → get_item key (f w).app.storage ≡ get_item key w.app.storage
      → get_item key (on_page match r page f w).app.storage ≡ get_item key w.app.storage
  on_page-get_item key page f w e =
      on_page_elim match r (λ v. get_item key v.app.storage ≡ get_item key w.app.storage) page f w e
        refl

  -- A page that is mounted reads the storage and does not write it.
  shell_move-storage :
      (back : Text) (e : ShellEvent) (w : World)
      → (shell_move match r back e w).app.storage ≡ (shell_update back e (shell_of w)).storage
  unfolding mount_pages
  shell_move-storage back e w =
      shell_move_elim match r (λ v. v.app.storage ≡ (shell_update back e (shell_of w)).storage) back
        e w refl refl

  pub nodes_event-storage :
      (c : Coordinator) (e : NodesEvent) (w : World)
      → (at_nodes_move match r c e w).app.storage ≡ w.app.storage
  unfolding at_nodes_move nodes_update
  nodes_event-storage c e w = elim (chooses-cases e) [
    | inl kept ↦ (nodes_update-Keeps r c.serve c.parse e w.nodes_page w.app kept).storage
    | inr (node, choice) ↦ rw choice refl
  ]

  settings_event-get_item :
      (key : Text) (c : Coordinator) (e : SettingsEvent) (w : World)
      → (sets_token e && text_eq admin_token_key key) ≡ false
      → get_item key (at_settings_move match r c e w).app.storage ≡ get_item key w.app.storage
  unfolding at_settings_move settings_update change_admin_token
  settings_event-get_item key c e w h =
      let s : SettingsState = record { tab = w.tab; page = w.settings_page; app = w.app } in
      elim (sets_token-cases e) [
        | inl kept ↦
            ap (get_item key) (settings_update-Keeps r c.serve c.parse c.parse_key e s kept).storage
        | inr (token, entered) ↦
            let other : text_eq admin_token_key key ≡ false =
              ap (λ e. sets_token e && text_eq admin_token_key key) (sym entered) ∙ h in
            rw entered (set_admin_token-get_item key token w.app.storage other)
      ]

  step-get_item :
      (key : Text) (w : World) (m : Move)
      → may_write key m ≡ false
      → get_item key (step match r w m).app.storage ≡ get_item key w.app.storage
  unfolding step send_poll at_dashboard_move render_settings_move at_peers_move at_topology_move
  step-get_item key w (sends poll) h = refl
  step-get_item key w (arrives c reply time i) h =
      ap (get_item key) (arrive-storage c reply time i w)
  step-get_item key w (message payload) h = refl
  step-get_item key w (at_shell back e) h =
      ap (get_item key) (shell_move-storage back e w)
      ∙ shell_update-get_item key back e (shell_of w) h
  step-get_item key w (at_dashboard q) h =
      on_page-get_item key dashboard (at_dashboard_move q) w refl
  step-get_item key w (render_settings config reply) h =
      on_page-get_item key settings (render_settings_move config reply) w refl
  step-get_item key w (at_nodes c e) h =
      on_page-get_item key nodes (at_nodes_move match r c e) w
        (ap (get_item key) (nodes_event-storage c e w))
  step-get_item key w (at_peers e) h = on_page-get_item key peers (at_peers_move e) w refl
  step-get_item key w (at_topology known e) h =
      on_page-get_item key topology (at_topology_move known e) w refl
  step-get_item key w (at_settings c e) h =
      on_page-get_item key settings (at_settings_move match r c e) w
        (settings_event-get_item key c e w h)

  -- In a session the item of a key in the storage stays as it is, unless the user enters a token, for
  -- the key of the token, or chooses a theme, for the key of the theme. So neither of the two ever
  -- overwrites the other, and no poll, message or mutation touches what is stored.
  pub run-get_item :
      (key : Text) (moves : List Move) (w : World)
      → any (may_write key) moves ≡ false
      → get_item key (Session.run match r w moves).app.storage ≡ get_item key w.app.storage
  unfolding Session.run
  run-get_item key [] w h = refl
  run-get_item key (m ∷ moves) w h =
      let (first, later) : (may_write key m ≡ false) × (any (may_write key) moves ≡ false) =
        ground arith in
      run-get_item key moves (step match r w m) later ∙ step-get_item key w m first
