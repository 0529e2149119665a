-- ===== src/Pages/Topology/Rendering.antt =====
-- What the page of the mesh (web/src/pages/topology.tsx) renders. React Flow draws the nodes and edges
-- that it is given; they stand here in their order.
use karadul.Base.{
  Bool, true, false, Option, none, some, List, [], ◌∷◌, ◌++◌, if◌then◌else◌, Text, codes,
}
use karadul.Store.{Node, MeshTopology, KaradulState}
use karadul.Pages.View.{
  Query, Item, caption, badge, skeleton, button, flat_map, repeat, captions, error_alert, is_true,
}
use karadul.Pages.Topology.{FlowNode, FlowEdge, on_node_click}
use karadul.Pages.Topology.Flow.{Flow}

pub data TopologyEvent : Type 0 where
  refetch : TopologyEvent
  click_node : Text → TopologyEvent

-- What an event does to the store. `nodes` is what the query of the nodes has.
unfoldable pub topology_update : Option (List Node) → TopologyEvent → KaradulState → KaradulState
unfolding on_node_click
topology_update nodes refetch s = s
topology_update nodes (click_node id) s = on_node_click nodes id s

abbrev pub topology_title : List (Item TopologyEvent)
topology_title =
    captions (codes "Network Topology" ∷ codes "Visual representation of your mesh network" ∷ [])

-- `MeshNode`, which can be clicked.
abbrev pub mesh_node : FlowNode → List (Item TopologyEvent)
mesh_node node =
    button node.label false (click_node node.id)
    ∷ caption node.virtual_ip
    ∷ badge node.status
    ∷ (if is_true node.is_exit_node then badge (codes "Exit") ∷ [] else [])

abbrev pub mesh_edge : FlowEdge → List (Item TopologyEvent)
mesh_edge edge = caption edge.label ∷ []

abbrev pub legend : List (Item TopologyEvent)
legend = captions (codes "Direct" ∷ codes "Relay" ∷ codes "Exit Node" ∷ [])

-- The graph that React Flow has.
abbrev pub graph : Flow → List (Item TopologyEvent)
graph flow = flat_map mesh_node flow.nodes ++ flat_map mesh_edge flow.edges

abbrev pub drawing : Bool → Flow → List (Item TopologyEvent)
drawing true flow = repeat 2 (skeleton ∷ [])
drawing false flow = graph flow

-- `TopologyPage`
unfoldable pub topology_page : Query MeshTopology → Flow → List (Item TopologyEvent)
topology_page query flow = elim query.error [
  | some message ↦
      topology_title ++ error_alert (codes "Failed to load topology") message (some refetch)
  | none ↦ topology_title ++ (legend ++ drawing query.is_loading flow)
]
