-- ===== src/Session/Shown.antt =====
-- The token that the settings page (web/src/pages/settings.tsx) shows in its field.
use karadul.Base.{◌≡◌, refl, sym, ap, ◌∙◌, inl, inr, Bool, none, some, List, [], ◌∷◌, arith, Text}
use karadul.Api.{admin_token_key, get_admin_token}
use karadul.Api.Token.{get_admin_token_lem}
use karadul.Api.Mutations.Runner.{Runner}
use karadul.Shell.{
  Page, ShellState, ShellEvent, dashboard, topology, nodes, peers, settings, shell_update,
}
use karadul.Pages.Settings.{SettingsPage, change_admin_token}
use karadul.Pages.Settings.Events.{SettingsEvent, SettingsState, settings_update}
use karadul.Pages.Settings.Syncing.{commit-admin_token}
use karadul.Pages.Settings.Frame.{
  sets_token-cases, settings_update-Keeps, settings_update-admin_token,
}
use karadul.Session
use karadul.Session.Polls.{arrive_page}
use karadul.Session.Stored.{arrive-storage, nodes_event-storage, shell_update-get_item}
use karadul.Api.Polls.{send_poll, Coordinator}
use karadul.Session.Cases.{on_page_elim, shell_move_elim}
use karadul.Session.{
  arrive, Move, sends, arrives, message, at_shell, at_dashboard, render_settings, at_nodes,
  at_peers, at_topology, at_settings, World, same_page, mount_pages, shell_of, with_shell,
  at_dashboard_move, render_settings_move, at_peers_move, at_topology_move, shell_move, on_page,
  at_nodes_move, at_settings_move, step,
}

-- The field has the stored token.
abbrev pub ShowsToken : World → Type 0
ShowsToken w = w.settings_page.admin_token ≡ get_admin_token w.app.storage

-- The theme has a key of its own.
get_admin_token-shell_update :
    (back : Text) (e : ShellEvent) (s : ShellState)
    → get_admin_token (shell_update back e s).storage ≡ get_admin_token s.storage
unfolding get_admin_token
get_admin_token-shell_update back e s =
    ap (λ o. elim o [ none ↦ [] | some token ↦ token ])
      (shell_update-get_item admin_token_key back e s (ground arith))

module _ (match : Text → Text → Bool) (r : Runner) where
  on_page-ShowsToken :
      (page : Page) (f : World → World) (w : World)
      → ShowsToken w
      → ShowsToken (f w)
      → ShowsToken (on_page match r page f w)
  on_page-ShowsToken page f w before after = on_page_elim match r ShowsToken page f w after before

  shell_move-ShowsToken :
      (back : Text) (e : ShellEvent) (w : World)
      → ShowsToken w
      → ShowsToken (shell_move match r back e w)
  unfolding mount_pages
  shell_move-ShowsToken back e w shown =
      shell_move_elim match r ShowsToken back e w
        (shown ∙ sym (get_admin_token-shell_update back e (shell_of w))) refl

  settings_event-ShowsToken :
      (c : Coordinator) (e : SettingsEvent) (w : World)
      → ShowsToken w
      → ShowsToken (at_settings_move match r c e w)
  unfolding at_settings_move settings_update change_admin_token
  settings_event-ShowsToken c e w shown =
      let s : SettingsState = record { tab = w.tab; page = w.settings_page; app = w.app } in
      elim (sets_token-cases e) [
        | inl kept ↦
            settings_update-admin_token r c.serve c.parse c.parse_key e s kept
            ∙ shown
            ∙ ap get_admin_token
                (sym (settings_update-Keeps r c.serve c.parse c.parse_key e s kept).storage)
        | inr (token, entered) ↦ rw entered (sym (get_admin_token_lem token w.app.storage))
      ]

  step-ShowsToken : (w : World) (m : Move) → ShowsToken w → ShowsToken (step match r w m)
  unfolding step send_poll at_dashboard_move render_settings_move at_nodes_move at_peers_move
      at_topology_move
  step-ShowsToken w (sends poll) h = h
  step-ShowsToken w (arrives c reply time i) h =
      ap SettingsPage.admin_token (arrive_page c reply time i w)
      ∙ h
      ∙ ap get_admin_token (sym (arrive-storage c reply time i w))
  step-ShowsToken w (message payload) h = h
  step-ShowsToken w (at_shell back e) h = shell_move-ShowsToken back e w h
  step-ShowsToken w (at_dashboard q) h = on_page-ShowsToken dashboard (at_dashboard_move q) w h h
  step-ShowsToken w (render_settings config reply) h =
      on_page-ShowsToken settings (render_settings_move config reply) w h
        (commit-admin_token config reply w.effects w.settings_page ∙ h)
  step-ShowsToken w (at_nodes c e) h =
      on_page-ShowsToken nodes (at_nodes_move match r c e) w h
        (h ∙ ap get_admin_token (sym (nodes_event-storage match r c e w)))
  step-ShowsToken w (at_peers e) h = on_page-ShowsToken peers (at_peers_move e) w h h
  step-ShowsToken w (at_topology known e) h =
      on_page-ShowsToken topology (at_topology_move known e) w h h
  step-ShowsToken w (at_settings c e) h =
      on_page-ShowsToken settings (at_settings_move match r c e) w h
        (settings_event-ShowsToken c e w h)

  -- In every session the field of the admin token keeps showing the token that is stored, which the
  -- requests carry: whatever the user enters, whatever theme is chosen, and however often the page is
  -- left, mounted again and rendered with other data.
  pub run-ShowsToken :
      (moves : List Move) (w : World) → ShowsToken w → ShowsToken (Session.run match r w moves)
  unfolding Session.run
  run-ShowsToken [] w h = h
  run-ShowsToken (m ∷ moves) w h = run-ShowsToken moves (step match r w m) (step-ShowsToken w m h)
