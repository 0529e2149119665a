-- ===== src/Session/Actions.antt =====
-- What the moves of the running dashboard do to the store: each is a session of the store's actions.
use karadul.Base.{
  ℕ, ◌≡◌, refl, sym, ap, ◌∙◌, inl, inr, Bool, true, false, ◌||◌, Option, none, some, List, [], ◌∷◌,
  ◌++◌, arith, find, any, all, Text, text_eq, all-append,
}
use karadul.Store.{
  Node, KaradulState, Action, set_nodes, set_peers, set_topology, set_stats, traffic_point,
  set_selected_node, toggle_dark_mode, set_is_connected, set_is_loading, act, run,
}
use karadul.Api.{Reply, App}
use karadul.Api.Guarded.{Keeps}
use karadul.Api.Mutations.Runner.{Runner}
use karadul.Socket.{
  Payload, nodes_message, peers_message, topology_message, stats_message, unknown_message,
  malformed, on_message,
}
use karadul.Shell.{Page, dashboard, topology, nodes, peers, settings, ShellEvent}
use karadul.Pages.Nodes.Rendering.{NodesEvent}
use karadul.Pages.Nodes.Frame.{chooses, chooses-cases, nodes_update-Keeps}
use karadul.Pages.Nodes.Offers.{nodes_update}
use karadul.Pages.Topology.{on_node_click}
use karadul.Pages.Topology.Rendering.{refetch, click_node, topology_update}
use karadul.Pages.Dashboard.{is_loading, loading_effect}
use karadul.Pages.Settings.Events.{SettingsEvent, settings_update, SettingsState}
use karadul.Pages.Settings.Frame.{sets_token-cases, settings_update-Keeps}
use karadul.Session
use karadul.Session.Polls.{allowed, arrive-Arrived}
use karadul.Api.Polls.{Coordinator, send_poll}
use karadul.Session.Cases.{on_page_elim, shell_move_elim}
use karadul.Session.{
  Move, sends, arrives, message, at_shell, at_dashboard, render_settings, at_nodes, at_peers,
  at_topology, at_settings, World, arrive, same_page, mount_pages, shell_of, with_shell, with_app,
  at_dashboard_move, render_settings_move, at_peers_move, at_topology_move, shell_move, on_page,
  at_nodes_move, at_settings_move, step,
}

abbrev pub Acts : Bool → KaradulState → KaradulState → Type 0
Acts may_choose s t =
    (actions : List Action) × (t ≡ run s actions) × (all (allowed may_choose) actions ≡ true)

-- The move by which the user chooses a node to see its details.
abbrev pub is_choice : Move → Bool
is_choice (at_nodes c e) = chooses e
is_choice (at_topology known (click_node id)) = true
is_choice _ = false

Acts-refl : (may : Bool) (s : KaradulState) → Acts may s s
Acts-refl may s = ([], refl, refl)

message-Acts :
    (may : Bool) (payload : Payload) (s : KaradulState) → Acts may s (on_message payload s)
message-Acts may (nodes_message new) s = (set_nodes new ∷ [], refl, refl)
message-Acts may (peers_message new) s = (set_peers new ∷ [], refl, refl)
message-Acts may (topology_message new) s = (set_topology new ∷ [], refl, refl)
message-Acts may (stats_message stats) s = (set_stats stats ∷ [], refl, refl)
message-Acts may (unknown_message type) s = Acts-refl may s
message-Acts may malformed s = Acts-refl may s

reply-Acts :
    (may : Bool) (c : Coordinator) (reply : Reply) (time : Text) (i : ℕ) (w : World)
    → Acts may w.app.store (arrive c reply time i w).app.store
reply-Acts may c reply time i w =
    let (actions, e, quiet) = arrive-Arrived c reply time i w in
    (actions, ap App.store e, quiet may)

click-Acts :
    (known : Option (List Node)) (id : Text) (s : KaradulState)
    → Acts true s (on_node_click known id s)
unfolding on_node_click
click-Acts none id s = Acts-refl true s
click-Acts (some known) id s = found (find (λ (n : Node). text_eq n.id id) known)
  where
    found :
        (o : Option Node)
        → Acts true s (elim o [ none ↦ s | some node ↦ act s (set_selected_node (some node)) ])
    found none = Acts-refl true s
    found (some node) = (set_selected_node (some node) ∷ [], refl, refl)

kept-Acts : (may : Bool) {app after : App} → Keeps app after → Acts may app.store after.store
kept-Acts may k = ([], k.store, refl)

-- A move does to the store what a session of the allowed actions does.
module _ (match : Text → Text → Bool) (r : Runner) where
  on_page-Acts :
      (may : Bool) (page : Page) (f : World → World) (w : World)
      → Acts may w.app.store (f w).app.store
      → Acts may w.app.store (on_page match r page f w).app.store
  on_page-Acts may page f w done =
      on_page_elim match r (λ v. Acts may w.app.store v.app.store) page f w done
        (Acts-refl may w.app.store)

  shell_move-Acts :
      (may : Bool) (back : Text) (e : ShellEvent) (w : World)
      → Acts may w.app.store (shell_move match r back e w).app.store
  unfolding mount_pages
  shell_move-Acts may back e w =
      shell_move_elim match r (λ v. Acts may w.app.store v.app.store) back e w
        (Acts-refl may w.app.store) (Acts-refl may w.app.store)

  nodes_event-Acts :
      (c : Coordinator) (e : NodesEvent) (w : World)
      → Acts (chooses e) w.app.store (at_nodes_move match r c e w).app.store
  unfolding at_nodes_move nodes_update
  nodes_event-Acts c e w = elim (chooses-cases e) [
    | inl kept ↦
        kept-Acts (chooses e) (nodes_update-Keeps r c.serve c.parse e w.nodes_page w.app kept)
    | inr (node, choice) ↦ rw choice (set_selected_node (some node) ∷ [], refl, refl)
  ]

  settings_event-Acts :
      (may : Bool) (c : Coordinator) (e : SettingsEvent) (w : World)
      → Acts may w.app.store (at_settings_move match r c e w).app.store
  unfolding at_settings_move settings_update
  settings_event-Acts may c e w =
      let s : SettingsState = record { tab = w.tab; page = w.settings_page; app = w.app } in
      elim (sets_token-cases e) [
        | inl kept ↦ kept-Acts may (settings_update-Keeps r c.serve c.parse c.parse_key e s kept)
        | inr (token, entered) ↦ rw entered (Acts-refl may w.app.store)
      ]

  step-Acts : (w : World) (m : Move) → Acts (is_choice m) w.app.store (step match r w m).app.store
  unfolding step send_poll at_dashboard_move render_settings_move at_peers_move at_topology_move
      loading_effect topology_update
  step-Acts w (sends poll) = Acts-refl false w.app.store
  step-Acts w (arrives c reply time i) = reply-Acts false c reply time i w
  step-Acts w (message payload) = message-Acts false payload w.app.store
  step-Acts w (at_shell back e) = shell_move-Acts false back e w
  step-Acts w (at_dashboard q) =
      on_page-Acts false dashboard (at_dashboard_move q) w
        (set_is_loading (is_loading q) ∷ [], refl, refl)
  step-Acts w (render_settings config reply) =
      on_page-Acts false settings (render_settings_move config reply) w
        (Acts-refl false w.app.store)
  step-Acts w (at_nodes c e) =
      on_page-Acts (chooses e) nodes (at_nodes_move match r c e) w (nodes_event-Acts c e w)
  step-Acts w (at_peers e) =
      on_page-Acts false peers (at_peers_move e) w (Acts-refl false w.app.store)
  step-Acts w (at_topology known refetch) =
      on_page-Acts false topology (at_topology_move known refetch) w (Acts-refl false w.app.store)
  step-Acts w (at_topology known (click_node id)) =
      on_page-Acts true topology (at_topology_move known (click_node id)) w
        (click-Acts known id w.app.store)
  step-Acts w (at_settings c e) =
      on_page-Acts false settings (at_settings_move match r c e) w (settings_event-Acts false c e w)

-- What is allowed stays so where more is.
allowed_or :
    (a b : Bool) (x : Action)
    → allowed a x ≡ true
    → (allowed (a || b) x ≡ true) × (allowed (b || a) x ≡ true)
allowed_or a b toggle_dark_mode h = (h, h)
allowed_or a b (set_is_connected connected) h = (h, h)
allowed_or a b (set_selected_node _) h = ground arith
allowed_or a b (set_nodes _) h = (refl, refl)
allowed_or a b (set_peers _) h = (refl, refl)
allowed_or a b (set_topology _) h = (refl, refl)
allowed_or a b (set_stats _) h = (refl, refl)
allowed_or a b (traffic_point _ _ _) h = (refl, refl)
allowed_or a b (set_is_loading _) h = (refl, refl)

all-allowed_or :
    (a b : Bool) (xs : List Action)
    → all (allowed a) xs ≡ true
    → (all (allowed (a || b)) xs ≡ true) × (all (allowed (b || a)) xs ≡ true)
all-allowed_or a b [] h = (refl, refl)
all-allowed_or a b (x ∷ xs) h = ground (arith, allowed_or a b x, all-allowed_or a b xs)

run-append : (s : KaradulState) (xs ys : List Action) → run s (xs ++ ys) ≡ run (run s xs) ys
run-append s [] ys = refl
run-append s (x ∷ xs) ys = run-append (act s x) xs ys

Acts-trans : (a b : Bool) (s t u : KaradulState) → Acts a s t → Acts b t u → Acts (a || b) s u
Acts-trans a b s t u (xs, e, first) (ys, f, second) = (
  xs ++ ys,
  f ∙ ap (λ z. run z ys) e ∙ sym (run-append s xs ys),
  ground (
    arith,
    all-append (allowed (a || b)) xs ys,
    all-allowed_or a b xs first,
    all-allowed_or b a ys second,
  ),
)

module _ (match : Text → Text → Bool) (r : Runner) where
  -- Whatever happens in a session, the store ends as a session of its own actions leaves it. The
  -- theme flag and the connection flag of the store are not among what these actions write, and the
  -- selected node is only if the user has chosen a node to see its details.
  pub run-Acts :
      (moves : List Move) (w : World)
      → Acts (any is_choice moves) w.app.store (Session.run match r w moves).app.store
  unfolding Session.run
  run-Acts [] w = Acts-refl false w.app.store
  run-Acts (m ∷ moves) w =
      Acts-trans (is_choice m) (any is_choice moves) w.app.store (step match r w m).app.store
        (Session.run match r (step match r w m) moves).app.store (step-Acts match r w m)
        (run-Acts moves (step match r w m))
