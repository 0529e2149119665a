-- ===== src/Store/Frame.antt =====
-- Each action of the store (web/src/lib/store.ts) writes its own field alone.
use karadul.Base.{◌≡◌, refl, Bool, not, Option, none, some, List, [], ◌∷◌}
use karadul.Store.{
  Node, Peer, MeshTopology, SystemStats, KaradulState, add_traffic_point, Action, act, run,
  set_nodes, set_peers, set_topology, set_stats, set_selected_node, toggle_dark_mode,
  set_is_connected, set_is_loading,
}

-- The value that the last matching action of a session wrote, or the old one.
abbrev pub latest : {A : Type 0} → (Action → Option A) → A → List Action → A
latest pick old [] = old
latest pick old (a ∷ rest) = latest pick (elim (pick a) [ none ↦ old | some new ↦ new ]) rest

-- What each action writes, by field.
abbrev pub nodes_of : Action → Option (List Node)
nodes_of (set_nodes nodes) = some nodes
nodes_of _ = none

abbrev pub peers_of : Action → Option (List Peer)
peers_of (set_peers peers) = some peers
peers_of _ = none

abbrev pub topology_of : Action → Option MeshTopology
topology_of (set_topology topology) = some topology
topology_of _ = none

abbrev pub stats_of : Action → Option (Option SystemStats)
stats_of (set_stats stats) = some (some stats)
stats_of _ = none

abbrev pub selected_node_of : Action → Option (Option Node)
selected_node_of (set_selected_node node) = some node
selected_node_of _ = none

abbrev pub is_connected_of : Action → Option Bool
is_connected_of (set_is_connected connected) = some connected
is_connected_of _ = none

abbrev pub is_loading_of : Action → Option Bool
is_loading_of (set_is_loading loading) = some loading
is_loading_of _ = none

-- The theme flag after a session: it turns once for each toggle.
abbrev pub toggled : Bool → List Action → Bool
toggled dark [] = dark
toggled dark (toggle_dark_mode ∷ rest) = toggled (not dark) rest
toggled dark (_ ∷ rest) = toggled dark rest

-- A state whose fields, the traffic history left out, are what the session's actions on each field
-- alone make of the state `s`.
pub record IsLatest (s t : KaradulState) (actions : List Action) : Type 0 where
  pub nodes : t.nodes ≡ latest nodes_of s.nodes actions
  pub peers : t.peers ≡ latest peers_of s.peers actions
  pub topology : t.topology ≡ latest topology_of s.topology actions
  pub stats : t.stats ≡ latest stats_of s.stats actions
  pub selected_node : t.selected_node ≡ latest selected_node_of s.selected_node actions
  pub is_connected : t.is_connected ≡ latest is_connected_of s.is_connected actions
  pub is_loading : t.is_loading ≡ latest is_loading_of s.is_loading actions
  pub dark_mode : t.dark_mode ≡ toggled s.dark_mode actions

here : (s : KaradulState) → IsLatest s s []
here s = record {
  nodes = refl;
  peers = refl;
  topology = refl;
  stats = refl;
  selected_node = refl;
  is_connected = refl;
  is_loading = refl;
  dark_mode = refl;
}

-- After a session from any state, each of the eight fields other than the traffic history holds what
-- the last action on that field wrote, and the old value if there was none; the theme flag has
-- turned once for each toggle.
pub run-IsLatest : (actions : List Action) (s : KaradulState) → IsLatest s (run s actions) actions
unfolding act add_traffic_point
run-IsLatest [] s = here s
run-IsLatest (a ∷ rest) s =
    let l : IsLatest (act s a) (run (act s a) rest) rest = run-IsLatest rest (act s a) in step a l
  where
    step :
        (b : Action)
        → IsLatest (act s b) (run (act s b) rest) rest
        → IsLatest s (run (act s b) rest) (b ∷ rest)
    step (set_nodes nodes) l = record {
      nodes = l.nodes;
      peers = l.peers;
      topology = l.topology;
      stats = l.stats;
      selected_node = l.selected_node;
      is_connected = l.is_connected;
      is_loading = l.is_loading;
      dark_mode = l.dark_mode;
    }
    step _ l = record {
      nodes = l.nodes;
      peers = l.peers;
      topology = l.topology;
      stats = l.stats;
      selected_node = l.selected_node;
      is_connected = l.is_connected;
      is_loading = l.is_loading;
      dark_mode = l.dark_mode;
    }
