-- ===== src/Session/Learning.antt =====
-- What the moves of the running dashboard (web/src/App.tsx) make the store know of the mesh.
use mathlib.Core.List.{foldl-append}
use karadul.Base.{
  ◌≤◌, ◌≡◌, refl, ap, ◌∙◌, sym, ℕ, inl, inr, Bool, Option, none, some, List, [], ◌∷◌, ◌++◌, foldl,
  length, get_elem?, erase_idx, find, Text, text_eq,
}
use karadul.Store.{Node, KaradulState, act, max_traffic_history, set_selected_node}
use karadul.Store.History.{length-take_last, IsBounded}
use karadul.Api.{Reply}
use karadul.Api.Mutations.Runner.{Runner}
use karadul.Api.Polls.{Coordinator, Poll, send_poll}
use karadul.Shell.{Page, dashboard, topology, nodes, peers, settings, ShellEvent}
use karadul.Pages.Nodes.Rendering.{NodesEvent}
use karadul.Pages.Nodes.Frame.{chooses-cases, nodes_update-Keeps}
use karadul.Pages.Nodes.Offers.{nodes_update}
use karadul.Pages.Topology.{on_node_click}
use karadul.Pages.Topology.Rendering.{refetch, click_node, topology_update}
use karadul.Pages.Dashboard.{loading_effect}
use karadul.Pages.Settings.Events.{SettingsEvent, SettingsState, settings_update}
use karadul.Pages.Settings.Frame.{sets_token-cases, settings_update-Keeps}
use karadul.Session
use karadul.Session.Cases.{on_page_elim, shell_move_elim}
use karadul.Session.News.{
  News, replied, heard, polls_after, all_heard, points_in, Known, known, learn,
  foldl-learn-IsNewest,
}
use karadul.Session.{
  Move, sends, arrives, message, at_shell, at_dashboard, render_settings, at_nodes, at_peers,
  at_topology, at_settings, World, first_world, arrived, arrive, mount_pages, at_dashboard_move,
  render_settings_move, at_peers_move, at_topology_move, shell_move, on_page, at_nodes_move,
  at_settings_move, step,
}
use karadul.Session.Replies.{message-learn, reply-learn}

-- The store has learned nothing of the mesh, and no poll was sent or has ended.
abbrev Unmoved : World → World → Type 0
Unmoved w after = (known after.app.store ≡ known w.app.store) × (after.under_way ≡ w.under_way)

Unmoved-refl : (w : World) → Unmoved w w
Unmoved-refl w = (refl, refl)

known-on_node_click :
    (nodes : Option (List Node)) (id : Text) (s : KaradulState)
    → known (on_node_click nodes id s) ≡ known s
unfolding on_node_click act
known-on_node_click none id s = refl
known-on_node_click (some shown) id s = found (find (λ (n : Node). text_eq n.id id) shown)
  where
    found :
        (o : Option Node)
        → known (elim o [ none ↦ s | some node ↦ act s (set_selected_node (some node)) ]) ≡ known s
    found none = refl
    found (some node) = refl

known-arrived :
    (c : Coordinator) (reply : Reply) (time : Text) (i : ℕ) (o : Option Poll) (w : World)
    → IsBounded w.app.store
    → (known (arrived c reply time i o w).app.store
        ≡ foldl learn
            (known w.app.store)
            (elim o [ none ↦ [] | some poll ↦ replied c reply time poll ]))
      × ((arrived c reply time i o w).under_way
          ≡ elim o [ none ↦ w.under_way | some poll ↦ erase_idx w.under_way i ])
unfolding arrived
known-arrived c reply time i none w h = (refl, refl)
known-arrived c reply time i (some poll) w h = (reply-learn c reply time poll w.app h, refl)

module _ (match : Text → Text → Bool) (r : Runner) where
  on_page-Unmoved :
      (page : Page) (f : World → World) (w : World)
      → Unmoved w (f w)
      → Unmoved w (on_page match r page f w)
  on_page-Unmoved page f w done = on_page_elim match r (Unmoved w) page f w done (Unmoved-refl w)

  shell_move-Unmoved :
      (back : Text) (e : ShellEvent) (w : World) → Unmoved w (shell_move match r back e w)
  unfolding mount_pages
  shell_move-Unmoved back e w =
      shell_move_elim match r (Unmoved w) back e w (Unmoved-refl w) (Unmoved-refl w)

  nodes_event-Unmoved :
      (c : Coordinator) (e : NodesEvent) (w : World) → Unmoved w (at_nodes_move match r c e w)
  unfolding at_nodes_move nodes_update act
  nodes_event-Unmoved c e w = elim (chooses-cases e) [
    | inl kept ↦
        (ap known (nodes_update-Keeps r c.serve c.parse e w.nodes_page w.app kept).store, refl)
    | inr (node, choice) ↦ rw choice (refl, refl)
  ]

  settings_event-Unmoved :
      (c : Coordinator) (e : SettingsEvent) (w : World) → Unmoved w (at_settings_move match r c e w)
  unfolding at_settings_move settings_update
  settings_event-Unmoved c e w =
      let s : SettingsState = record { tab = w.tab; page = w.settings_page; app = w.app } in
      elim (sets_token-cases e) [
        | inl kept ↦
            (ap known (settings_update-Keeps r c.serve c.parse c.parse_key e s kept).store, refl)
        | inr (token, entered) ↦ rw entered (refl, refl)
      ]

  -- After a move the store knows what the move brings besides what it knew.
  abbrev Learns : World → Move → World → Type 0
  Learns w m after =
      (known after.app.store ≡ foldl learn (known w.app.store) (heard w.under_way m))
      × (after.under_way ≡ polls_after w.under_way m)

  step-Learns : (w : World) (m : Move) → IsBounded w.app.store → Learns w m (step match r w m)
  unfolding step send_poll arrive at_dashboard_move render_settings_move at_peers_move
      at_topology_move loading_effect topology_update act
  step-Learns w (sends poll) h = (refl, refl)
  step-Learns w (arrives c reply time i) h =
      known-arrived c reply time i (get_elem? w.under_way i) w h
  step-Learns w (message payload) h = (message-learn payload w.app.store, refl)
  step-Learns w (at_shell back e) h = shell_move-Unmoved back e w
  step-Learns w (at_dashboard q) h =
      on_page-Unmoved dashboard (at_dashboard_move q) w (Unmoved-refl w)
  step-Learns w (render_settings config reply) h =
      on_page-Unmoved settings (render_settings_move config reply) w (Unmoved-refl w)
  step-Learns w (at_nodes c e) h =
      on_page-Unmoved nodes (at_nodes_move match r c e) w (nodes_event-Unmoved c e w)
  step-Learns w (at_peers e) h = on_page-Unmoved peers (at_peers_move e) w (Unmoved-refl w)
  step-Learns w (at_topology shown refetch) h =
      on_page-Unmoved topology (at_topology_move shown refetch) w (Unmoved-refl w)
  step-Learns w (at_topology shown (click_node id)) h =
      on_page-Unmoved topology (at_topology_move shown (click_node id)) w
        (known-on_node_click shown id w.app.store, refl)
  step-Learns w (at_settings c e) h =
      on_page-Unmoved settings (at_settings_move match r c e) w (settings_event-Unmoved c e w)

-- What is known keeps its history within the bound.
foldl-learn-bounded :
    (news : List News) (k : Known)
    → length k.traffic_history ≤ max_traffic_history
    → length (foldl learn k news).traffic_history ≤ max_traffic_history
foldl-learn-bounded news k h =
    rw ((foldl-learn-IsNewest news k h).4)
      (length-take_last max_traffic_history (k.traffic_history ++ points_in news))

module _ (match : Text → Text → Bool) (r : Runner) where
  pub run-learn :
      (moves : List Move) (w : World)
      → IsBounded w.app.store
      → known (Session.run match r w moves).app.store
        ≡ foldl learn (known w.app.store) (all_heard w.under_way moves)
  unfolding Session.run
  run-learn [] w h = refl
  run-learn (m ∷ moves) w h =
      let next = step match r w m in
      let news = heard w.under_way m in
      let (learned, polls) = step-Learns match r w m h in
      let bounded : IsBounded next.app.store =
        rw (ap Known.traffic_history learned) (foldl-learn-bounded news (known w.app.store) h) in
      run-learn moves next bounded
      ∙ ap (λ (k : Known). foldl learn k (all_heard next.under_way moves)) learned
      ∙ ap
          (λ (l : List Poll).
            foldl learn (foldl learn (known w.app.store) news) (all_heard l moves))
          polls
      ∙ sym (
          foldl-append learn (known w.app.store) news (all_heard (polls_after w.under_way m) moves))
