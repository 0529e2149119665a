-- ===== src/Pages/Topology.antt =====
-- web/src/pages/topology.tsx: the graph of the mesh, and the choice of a node in it.
pub mod Flow
pub mod Rendering
use karadul.Base.{
  ℕ, zero, suc, ◌+◌, ◌*◌, ◌/◌, ◌%◌, ◌≤◌, ◌≡◌, ap, ◌∙◌, ◌≢◌, ◌⊎◌, inl, inr, Bool, true, false,
  Option, none, some, List, [], ◌∷◌, ◌++◌, map, arith, if◌then◌else◌, get_elem?, find, Text, codes,
  text_eq, lt_or_le,
}
use karadul.Store.{
  Node, TopologyNode, ConnectionType, Connection, MeshTopology, KaradulState, act,
  set_selected_node, direct, relay,
}

-- A node of the graph: its identifier, its place and what it shows.
pub record FlowNode : Type 0 where
  pub id : Text
  pub x : ℕ
  pub y : ℕ
  pub label : Text
  pub status : Text
  pub virtual_ip : Text
  pub is_exit_node : Option Bool

pub record FlowEdge : Type 0 where
  pub id : Text
  pub source : Text
  pub target : Text
  pub dashed : Bool
  pub label : Text

-- The node with the place that its index has, three to a row.
abbrev pub flow_node : ℕ → TopologyNode → FlowNode
flow_node index node = record {
  id = node.id;
  x = 200 + index % 3 * 250;
  y = 150 + index / 3 * 200;
  label = node.hostname;
  status = node.status;
  virtual_ip = node.virtual_ip;
  is_exit_node = node.is_exit_node;
}

abbrev pub flow_nodes_from : ℕ → List TopologyNode → List FlowNode
flow_nodes_from i [] = []
flow_nodes_from i (node ∷ nodes) = flow_node i node ∷ flow_nodes_from (suc i) nodes

-- `initialNodes`
unfoldable pub initial_nodes : Option MeshTopology → List FlowNode
initial_nodes none = []
initial_nodes (some topology) = flow_nodes_from 0 topology.nodes

abbrev pub is_relay : ConnectionType → Bool
is_relay relay = true
is_relay direct = false

abbrev pub flow_edge : Connection → FlowEdge
flow_edge c = record {
  id = codes "e" ++ c.from ++ codes "-" ++ c.to;
  source = c.from;
  target = c.to;
  dashed = is_relay c.type;
  label = if is_relay c.type then codes "Relay" else codes "Direct";
}

-- `initialEdges`
unfoldable pub initial_edges : Option MeshTopology → List FlowEdge
initial_edges none = []
initial_edges (some topology) = map flow_edge topology.connections

-- `onNodeClick`: the node of the list with the identifier that was clicked, if it has one.
unfoldable pub on_node_click : Option (List Node) → Text → KaradulState → KaradulState
on_node_click none id s = s
on_node_click (some nodes) id s = elim (find (λ (n : Node). text_eq n.id id) nodes) [
  | none ↦ s
  | some node ↦ act s (set_selected_node (some node))
]

-- Two nodes of the graph stand apart by a column or by a row.
abbrev pub Apart : FlowNode → FlowNode → Type 0
Apart a b = (a.x + 250 ≤ b.x) ⊎ (b.x + 250 ≤ a.x) ⊎ (a.y + 200 ≤ b.y) ⊎ (b.y + 200 ≤ a.y)

flow_node-Apart : (i j : ℕ) (m n : TopologyNode) → i ≢ j → Apart (flow_node i m) (flow_node j n)
flow_node-Apart i j m n ne = elim (lt_or_le (i / 3) (j / 3)) [
  | inl l ↦ inr (inr (inl (omega arith)))
  | inr l ↦ elim (lt_or_le (j / 3) (i / 3)) [
    | inl k ↦ inr (inr (inr (omega arith)))
    | inr k ↦ elim (lt_or_le (i % 3) (j % 3)) [
      | inl o ↦ inl (omega arith)
      | inr o ↦ inr (inl (omega arith))
    ]
  ]
]

get_elem?-flow_nodes_from :
    (i k j : ℕ) (nodes : List TopologyNode) {f : FlowNode}
    → get_elem? (flow_nodes_from i nodes) k ≡ some f
    → j ≡ i + k
    → (node : TopologyNode) × (f ≡ flow_node j node)
get_elem?-flow_nodes_from i k j [] h e = absurd (cc)
get_elem?-flow_nodes_from i zero j (node ∷ nodes) {f} h e =
    let first : f ≡ flow_node i node = cc in
    let same : i ≡ j = omega arith in (node, first ∙ ap (λ (n : ℕ). flow_node n node) same)
get_elem?-flow_nodes_from i (suc k) j (node ∷ nodes) h e =
    get_elem?-flow_nodes_from (suc i) k j nodes h (omega arith)

-- Whatever the topology, the nodes at two places of the drawn graph's list are apart: by a column of 250 or
-- more, or by a row of 200 or more.
pub initial_nodes-Apart :
    (topology : MeshTopology) (i j : ℕ) (a b : FlowNode)
    → i ≢ j
    → get_elem? (initial_nodes (some topology)) i ≡ some a
    → get_elem? (initial_nodes (some topology)) j ≡ some b
    → Apart a b
unfolding initial_nodes
initial_nodes-Apart topology i j a b ne ha hb =
    let (m, ea) = get_elem?-flow_nodes_from 0 i i topology.nodes ha (omega arith) in
    let (n, eb) = get_elem?-flow_nodes_from 0 j j topology.nodes hb (omega arith) in
    rw (ea, eb) (flow_node-Apart i j m n ne)
