-- ===== src/Pages/Topology/Flow.antt =====
-- What React Flow has of the mesh (web/src/pages/topology.tsx): the state of `useNodesState` and
-- `useEdgesState`. How it applies a change, as when the user drags a node, is a parameter
-- (`apply_node` and `apply_edge`: `applyNodeChanges` and `applyEdgeChanges` of @xyflow/react).
use karadul.Base.{
  ℕ, zero, suc, ◌+◌, ◌*◌, ◌/◌, ◌%◌, ◌≡◌, refl, ap, ◌⊎◌, inl, inr, Bool, true, false, Option, none,
  some, List, [], ◌∷◌, ◌++◌, map, foldl, any, arith, if◌then◌else◌, length, get_elem?, codes,
  length-map,
}
use karadul.Store.{TopologyNode, ConnectionType, Connection, MeshTopology, direct, relay}
use karadul.Pages.Topology.{
  FlowNode, FlowEdge, flow_node, flow_nodes_from, is_relay, flow_edge, initial_nodes, initial_edges,
}

pub record Flow : Type 0 where
  pub nodes : List FlowNode
  pub edges : List FlowEdge

-- `topology || storeTopology`
abbrev pub active_topology : Option MeshTopology → MeshTopology → MeshTopology
active_topology none stored = stored
active_topology (some topology) stored = topology

-- The first value of the state, which is also what the effect sets when there is another topology.
unfoldable pub flow_of : MeshTopology → Flow
unfolding initial_nodes initial_edges
flow_of topology = record {
  nodes = initial_nodes (some topology);
  edges = initial_edges (some topology);
}

module _ (N E : Type 0) where
  -- A rendering with another topology, whose effect runs, and `onNodesChange` and `onEdgesChange`.
  pub data FlowMove : Type 0 where
    other_topology : Option MeshTopology → MeshTopology → FlowMove
    nodes_change : N → FlowMove
    edges_change : E → FlowMove

module _ {N E : Type 0} (apply_node : N → List FlowNode → List FlowNode)
    (apply_edge : E → List FlowEdge → List FlowEdge) where
  pub flow_move : Flow → FlowMove N E → Flow
  unfolding flow_of
  flow_move flow (other_topology data_ stored) = flow_of (active_topology data_ stored)
  flow_move flow (nodes_change change) = record flow { nodes = apply_node change flow.nodes }
  flow_move flow (edges_change change) = record flow { edges = apply_edge change flow.edges }

  unfoldable pub flow_run : Flow → List (FlowMove N E) → Flow
  unfolding flow_move
  flow_run flow moves = foldl flow_move flow moves

-- The moves of a session by their kind.
module _ {N E : Type 0} where
  abbrev pub is_other : FlowMove N E → Bool
  is_other (other_topology data_ stored) = true
  is_other _ = false

  abbrev pub nodes_changes : List (FlowMove N E) → List N
  nodes_changes [] = []
  nodes_changes (nodes_change change ∷ moves) = change ∷ nodes_changes moves
  nodes_changes (_ ∷ moves) = nodes_changes moves

  abbrev pub edges_changes : List (FlowMove N E) → List E
  edges_changes [] = []
  edges_changes (edges_change change ∷ moves) = change ∷ edges_changes moves
  edges_changes (_ ∷ moves) = edges_changes moves

-- The node of the graph stands for the node of the mesh.
abbrev pub DrawsNode : TopologyNode → FlowNode → Type 0
DrawsNode node drawn =
    (drawn.id ≡ node.id)
    × (drawn.label ≡ node.hostname)
    × (drawn.status ≡ node.status)
    × (drawn.virtual_ip ≡ node.virtual_ip)
    × (drawn.is_exit_node ≡ node.is_exit_node)

-- The edge stands for the connection: a relayed one is dashed.
abbrev pub DrawsEdge : Connection → FlowEdge → Type 0
DrawsEdge connection drawn =
    (drawn.source ≡ connection.from)
    × (drawn.target ≡ connection.to)
    × (drawn.id ≡ codes "e" ++ connection.from ++ codes "-" ++ connection.to)
    × (((connection.type ≡ direct) × (drawn.dashed ≡ false) × (drawn.label ≡ codes "Direct"))
        ⊎ ((connection.type ≡ relay) × (drawn.dashed ≡ true) × (drawn.label ≡ codes "Relay")))

-- The graph has a node for each node of the mesh and an edge for each connection, in their order and no
-- other; the nodes stand in rows of three.
pub record Draws (topology : MeshTopology) (flow : Flow) : Type 0 where
  pub node_count : length flow.nodes ≡ length topology.nodes
  pub draws_node :
      (i : ℕ) (node : TopologyNode)
      → get_elem? topology.nodes i ≡ some node
      → (drawn : FlowNode) × (get_elem? flow.nodes i ≡ some drawn)
        × DrawsNode node drawn
        × (drawn.x ≡ 200 + 250 * (i % 3))
        × (drawn.y ≡ 150 + 200 * (i / 3))
  pub edge_count : length flow.edges ≡ length topology.connections
  pub draws_edge :
      (i : ℕ) (connection : Connection)
      → get_elem? topology.connections i ≡ some connection
      → (drawn : FlowEdge) × (get_elem? flow.edges i ≡ some drawn) × DrawsEdge connection drawn

length-flow_nodes_from :
    (i : ℕ) (nodes : List TopologyNode) → length (flow_nodes_from i nodes) ≡ length nodes
length-flow_nodes_from i [] = refl
length-flow_nodes_from i (node ∷ nodes) = ap suc (length-flow_nodes_from (suc i) nodes)

get_elem?-flow_nodes :
    (k i j : ℕ) (nodes : List TopologyNode) (node : TopologyNode)
    → get_elem? nodes i ≡ some node
    → j ≡ k + i
    → get_elem? (flow_nodes_from k nodes) i ≡ some (flow_node j node)
get_elem?-flow_nodes k i j [] node h e = absurd (cc)
get_elem?-flow_nodes k zero j (first ∷ nodes) node h e =
    let same : k ≡ j = omega arith in let this : first ≡ node = cc in rw (same, this) refl
get_elem?-flow_nodes k (suc i) j (first ∷ nodes) node h e =
    get_elem?-flow_nodes (suc k) i j nodes node h (omega arith)

get_elem?-flow_edges :
    (i : ℕ) (connections : List Connection) (connection : Connection)
    → get_elem? connections i ≡ some connection
    → get_elem? (map flow_edge connections) i ≡ some (flow_edge connection)
get_elem?-flow_edges i [] connection h = absurd (cc)
get_elem?-flow_edges zero (first ∷ connections) connection h =
    let this : first ≡ connection = cc in ap (λ c. some (flow_edge c)) this
get_elem?-flow_edges (suc i) (first ∷ connections) connection h =
    get_elem?-flow_edges i connections connection h

flow_edge-kind :
    (type : ConnectionType)
    → ((type ≡ direct)
        × (is_relay type ≡ false)
        × ((if is_relay type then codes "Relay" else codes "Direct") ≡ codes "Direct"))
      ⊎ ((type ≡ relay)
          × (is_relay type ≡ true)
          × ((if is_relay type then codes "Relay" else codes "Direct") ≡ codes "Relay"))
flow_edge-kind direct = inl (refl, refl, refl)
flow_edge-kind relay = inr (refl, refl, refl)

flow_of-Draws : (topology : MeshTopology) → Draws topology (flow_of topology)
unfolding flow_of
flow_of-Draws topology = record {
  node_count = length-flow_nodes_from 0 topology.nodes;
  draws_node = λ i node h. (
    flow_node i node,
    get_elem?-flow_nodes 0 i i topology.nodes node h (omega arith),
    (refl, refl, refl, refl, refl),
    omega arith,
    omega arith,
  );
  edge_count = length-map topology.connections flow_edge;
  draws_edge = λ i c h. (
    flow_edge c,
    get_elem?-flow_edges i topology.connections c h,
    (refl, refl, refl, flow_edge-kind c.type),
  );
}

module _ {N E : Type 0} (apply_node : N → List FlowNode → List FlowNode)
    (apply_edge : E → List FlowEdge → List FlowEdge) where
  -- The state with some changes to its nodes and to its edges.
  abbrev pub changed : List N → List E → Flow → Flow
  changed ns es flow = record {
    nodes = foldl (λ nodes n. apply_node n nodes) flow.nodes ns;
    edges = foldl (λ edges e. apply_edge e edges) flow.edges es;
  }

  flow_run-changed :
      (moves : List (FlowMove N E)) (flow : Flow)
      → any is_other moves ≡ false
      → flow_run apply_node apply_edge flow moves
        ≡ changed (nodes_changes moves) (edges_changes moves) flow
  unfolding flow_run
  flow_run-changed [] flow h = refl
  flow_run-changed (other_topology data_ stored ∷ moves) flow h = absurd (cc)
  flow_run-changed (nodes_change change ∷ moves) flow h = flow_run-changed moves _ h
  flow_run-changed (edges_change change ∷ moves) flow h = flow_run-changed moves _ h

  -- What is drawn is the graph of the last topology, the query's or, where that has none, the store's, with
  -- the changes that React Flow has made since to the nodes and to the edges, each in their order.
  -- The graph has a node for each node of this topology, with its fields and in rows of three, and
  -- an edge for each connection, and no other. All that was drawn before, the places to which the
  -- user has dragged the nodes included, is forgotten when another topology comes.
  pub flow_run_lem :
      (before after : List (FlowMove N E)) (data_ : Option MeshTopology)
      (stored topology : MeshTopology) (flow : Flow)
      → any is_other after ≡ false
      → (data_ ≡ some topology) ⊎ ((data_ ≡ none) × (stored ≡ topology))
      → (graph : Flow) × Draws topology graph
        × (flow_run apply_node apply_edge flow (before ++ other_topology data_ stored ∷ after)
            ≡ changed (nodes_changes after) (edges_changes after) graph)
  unfolding flow_run
  flow_run_lem [] after (some known) stored topology flow h (inl e) =
      let same : known ≡ topology = cc in
      (flow_of known, rw same (flow_of-Draws topology), flow_run-changed after _ h)
  flow_run_lem [] after (some known) stored topology flow h (inr (e, _)) = absurd (cc)
  flow_run_lem [] after none stored topology flow h (inl e) = absurd (cc)
  flow_run_lem [] after none stored topology flow h (inr (_, same)) =
      (flow_of stored, rw same (flow_of-Draws topology), flow_run-changed after _ h)
  flow_run_lem (m ∷ before) after data_ stored topology flow h last =
      flow_run_lem before after data_ stored topology (flow_move apply_node apply_edge flow m) h
        last
