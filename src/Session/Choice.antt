-- ===== src/Session/Choice.antt =====
-- The node that the running dashboard shows the details of (web/src/pages/nodes.tsx), and the flags of
-- the store.
use karadul.Base.{◌≡◌, refl, ap, ◌∙◌, Bool, true, false, some, List, [], ◌∷◌, arith, any, all, Text}
use karadul.Store.{
  Node, KaradulState, Action, set_nodes, set_peers, set_topology, set_stats, traffic_point,
  set_selected_node, toggle_dark_mode, set_is_connected, set_is_loading, add_traffic_point, act,
  run,
}
use karadul.Api.Mutations.Runner.{Runner}
use karadul.Shell.{nodes, page_of}
use karadul.Pages.Nodes.Rendering.{view_details}
use karadul.Pages.Nodes.Offers.{nodes_update}
use karadul.Session
use karadul.Api.Polls.{Coordinator}
use karadul.Session.{Move, at_nodes, World, same_page, on_page, at_nodes_move, step}
use karadul.Session.Actions.{is_choice, run-Acts}
use karadul.Session.Polls.{allowed}

act-selected_node :
    (a : Action) (s : KaradulState)
    → allowed false a ≡ true
    → (act s a).selected_node ≡ s.selected_node
unfolding act add_traffic_point
act-selected_node (set_selected_node _) s h = absurd (cc)
act-selected_node toggle_dark_mode s h = refl
act-selected_node (set_is_connected _) s h = refl
act-selected_node (set_nodes _) s h = refl
act-selected_node (set_peers _) s h = refl
act-selected_node (set_topology _) s h = refl
act-selected_node (set_stats _) s h = refl
act-selected_node (traffic_point _ _ _) s h = refl
act-selected_node (set_is_loading _) s h = refl

act-flags :
    (may : Bool) (a : Action) (s : KaradulState)
    → allowed may a ≡ true
    → ((act s a).dark_mode ≡ s.dark_mode) × ((act s a).is_connected ≡ s.is_connected)
unfolding act add_traffic_point
act-flags may toggle_dark_mode s h = absurd (cc)
act-flags may (set_is_connected _) s h = absurd (cc)
act-flags may (set_selected_node _) s h = (refl, refl)
act-flags may (set_nodes _) s h = (refl, refl)
act-flags may (set_peers _) s h = (refl, refl)
act-flags may (set_topology _) s h = (refl, refl)
act-flags may (set_stats _) s h = (refl, refl)
act-flags may (traffic_point _ _ _) s h = (refl, refl)
act-flags may (set_is_loading _) s h = (refl, refl)

run-selected_node :
    (actions : List Action) (s : KaradulState)
    → all (allowed false) actions ≡ true
    → (run s actions).selected_node ≡ s.selected_node
run-selected_node [] s h = refl
run-selected_node (a ∷ rest) s h =
    let (first, later) : (allowed false a ≡ true) × (all (allowed false) rest ≡ true) =
      ground arith in
    run-selected_node rest (act s a) later ∙ act-selected_node a s first

run-flags :
    (may : Bool) (actions : List Action) (s : KaradulState)
    → all (allowed may) actions ≡ true
    → ((run s actions).dark_mode ≡ s.dark_mode) × ((run s actions).is_connected ≡ s.is_connected)
run-flags may [] s h = (refl, refl)
run-flags may (a ∷ rest) s h =
    let (first, later) : (allowed may a ≡ true) × (all (allowed may) rest ≡ true) = ground arith in
    let (dark, connected) = run-flags may rest (act s a) later in
    let (dark_first, connected_first) = act-flags may a s first in
    (dark ∙ dark_first, connected ∙ connected_first)

module _ (match : Text → Text → Bool) (r : Runner) where
  -- The chosen node at the start of its details.
  step-view_details :
      (c : Coordinator) (node : Node) (w : World)
      → page_of match w.pathname ≡ nodes
      → (step match r w (at_nodes c (view_details node))).app.store.selected_node ≡ some node
  unfolding step on_page at_nodes_move nodes_update act
  step-view_details c node w there = rw there refl

  -- Once the user has asked for the details of a node on its page, they stay open for this node as it
  -- was then, through every later move but another choice: the deletion of the node, the polls and
  -- messages that no longer have it or have it otherwise, and other pages visited in between. The flags
  -- of the store for the theme and the connection never change.
  pub details-kept :
      (c : Coordinator) (node : Node) (moves : List Move) (w : World)
      → page_of match w.pathname ≡ nodes
      → any is_choice moves ≡ false
      → let after = (Session.run match r w (at_nodes c (view_details node) ∷ moves)).app.store in
        (after.selected_node ≡ some node)
        × (after.dark_mode ≡ w.app.store.dark_mode)
        × (after.is_connected ≡ w.app.store.is_connected)
  unfolding Session.run
  details-kept c node moves w there none_chosen =
      let chosen = step match r w (at_nodes c (view_details node)) in
      let (actions, e, quiet) = run-Acts match r moves chosen in
      let (all_actions, f, whole) = run-Acts match r (at_nodes c (view_details node) ∷ moves) w in
      let (dark, connected) = run-flags _ all_actions w.app.store whole in
      (
        ap KaradulState.selected_node e
            ∙ run-selected_node actions chosen.app.store (rw⁻¹ none_chosen quiet)
            ∙ step-view_details c node w there,
        ap KaradulState.dark_mode f ∙ dark,
        ap KaradulState.is_connected f ∙ connected,
      )
