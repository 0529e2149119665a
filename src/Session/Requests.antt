-- ===== src/Session/Requests.antt =====
-- The requests that the running dashboard sends.
use karadul.Base.{ℕ, refl, sym, ap, ◌∙◌, inl, inr, Bool, List, [], ◌∷◌, Text}
use mathlib.Core.List.{append-nil}
use karadul.Api.{Reply, App, no_options, make_request}
use karadul.Api.Guarded.{make_request-IsGuarded, Sent, Sent-refl, Sent-trans}
use karadul.Api.Mutations.Runner.{Runner}
use karadul.Shell.{Page, ShellEvent, dashboard, topology, nodes, peers, settings}
use karadul.Pages.Nodes.Rendering.{NodesEvent}
use karadul.Pages.Nodes.Frame.{chooses-cases, nodes_update-Keeps}
use karadul.Pages.Nodes.Offers.{nodes_update}
use karadul.Pages.Settings.Events.{SettingsEvent, SettingsState, settings_update}
use karadul.Pages.Settings.Frame.{sets_token-cases, settings_update-Keeps}
use karadul.Session
use karadul.Session.Polls.{arrive-Arrived}
use karadul.Api.Polls.{Coordinator, Poll, poll_path, send_poll}
use karadul.Session.Cases.{on_page_elim, shell_move_elim}
use karadul.Session.{
  Move, sends, arrives, message, at_shell, at_dashboard, render_settings, at_nodes, at_peers,
  at_topology, at_settings, World, arrive, same_page, mount_pages, shell_of, with_shell, with_app,
  at_dashboard_move, render_settings_move, at_peers_move, at_topology_move, shell_move, on_page,
  at_nodes_move, at_settings_move, step,
}

send_poll-Sent : (poll : Poll) (app : App) → Sent app (send_poll poll app)
unfolding send_poll
send_poll-Sent poll app = (
  make_request (poll_path poll) no_options app.storage ∷ [],
  refl,
  (make_request-IsGuarded (poll_path poll) no_options app.storage, tt),
)

arrive-Sent :
    (c : Coordinator) (reply : Reply) (time : Text) (i : ℕ) (w : World)
    → Sent w.app (arrive c reply time i w).app
arrive-Sent c reply time i w =
    let (actions, e, quiet) = arrive-Arrived c reply time i w in
    ([], ap App.requests e ∙ sym (append-nil w.app.requests), tt)

module _ (match : Text → Text → Bool) (r : Runner) where
  on_page-Sent :
      (page : Page) (f : World → World) (w : World)
      → Sent w.app (f w).app
      → Sent w.app (on_page match r page f w).app
  on_page-Sent page f w done =
      on_page_elim match r (λ v. Sent w.app v.app) page f w done (Sent-refl w.app)

  shell_move-Sent :
      (back : Text) (e : ShellEvent) (w : World) → Sent w.app (shell_move match r back e w).app
  unfolding mount_pages
  shell_move-Sent back e w =
      shell_move_elim match r (λ v. Sent w.app v.app) back e w (Sent-refl w.app) (Sent-refl w.app)

  nodes_event-Sent :
      (c : Coordinator) (e : NodesEvent) (w : World) → Sent w.app (at_nodes_move match r c e w).app
  unfolding at_nodes_move nodes_update
  nodes_event-Sent c e w = elim (chooses-cases e) [
    | inl kept ↦ (nodes_update-Keeps r c.serve c.parse e w.nodes_page w.app kept).sent
    | inr (node, choice) ↦ rw choice (Sent-refl w.app)
  ]

  settings_event-Sent :
      (c : Coordinator) (e : SettingsEvent) (w : World)
      → Sent w.app (at_settings_move match r c e w).app
  unfolding at_settings_move settings_update
  settings_event-Sent c e w =
      let s : SettingsState = record { tab = w.tab; page = w.settings_page; app = w.app } in
      elim (sets_token-cases e) [
        | inl kept ↦ (settings_update-Keeps r c.serve c.parse c.parse_key e s kept).sent
        | inr (token, entered) ↦ rw entered (Sent-refl w.app)
      ]

  step-Sent : (w : World) (m : Move) → Sent w.app (step match r w m).app
  unfolding step at_dashboard_move render_settings_move at_peers_move at_topology_move
  step-Sent w (sends poll) = send_poll-Sent poll w.app
  step-Sent w (arrives c reply time i) = arrive-Sent c reply time i w
  step-Sent w (message payload) = Sent-refl w.app
  step-Sent w (at_shell back e) = shell_move-Sent back e w
  step-Sent w (at_dashboard q) = on_page-Sent dashboard (at_dashboard_move q) w (Sent-refl w.app)
  step-Sent w (render_settings config reply) =
      on_page-Sent settings (render_settings_move config reply) w (Sent-refl w.app)
  step-Sent w (at_nodes c e) =
      on_page-Sent nodes (at_nodes_move match r c e) w (nodes_event-Sent c e w)
  step-Sent w (at_peers e) = on_page-Sent peers (at_peers_move e) w (Sent-refl w.app)
  step-Sent w (at_topology known e) =
      on_page-Sent topology (at_topology_move known e) w (Sent-refl w.app)
  step-Sent w (at_settings c e) =
      on_page-Sent settings (at_settings_move match r c e) w (settings_event-Sent c e w)

  -- Whatever happens in a session, the log of the requests only grows, every request of it goes below
  -- `/api`, and one that carries the header of the token goes to a path that begins with `/v1/admin`.
  pub run-Sent : (moves : List Move) (w : World) → Sent w.app (Session.run match r w moves).app
  unfolding Session.run
  run-Sent [] w = Sent-refl w.app
  run-Sent (m ∷ moves) w =
      Sent-trans w.app (step match r w m).app (Session.run match r (step match r w m) moves).app
        (step-Sent w m) (run-Sent moves (step match r w m))
