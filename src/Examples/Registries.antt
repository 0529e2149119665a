-- ===== src/Examples/Registries.antt =====
-- The registry of the in-memory coordinator, and the graph of React Flow.
use karadul.Base.{
  ℕ, ◌≡◌, refl, inl, arith, get_elem?, none, some, List, [], ◌∷◌, foldl, Text, codes, show_number,
}
use karadul.Store.{TopologyNode, MeshTopology}
use karadul.MockApi.{MockState}
use karadul.MockApi.Seed.{initial_mock}
use karadul.MockApi.Registry.{
  KeyCall, create, delete, called, promised, registry_of, called-promised,
}
use karadul.Pages.Topology.{
  FlowNode, FlowEdge, flow_node, initial_nodes, Apart, initial_nodes-Apart,
}
use karadul.Pages.Topology.Flow.{
  Flow, other_topology, nodes_change, edges_change, flow_of, flow_run, changed, Draws, flow_run_lem,
}

abbrev iso : ℕ → Text
iso time = show_number time

abbrev started : MockState
started = initial_mock iso 0

abbrev calls : List KeyCall
calls =
    create 100 (codes "abc") (some (codes "7d"))
    ∷ delete (codes "key-1")
    ∷ create 200 (codes "def") none
    ∷ delete (codes "key-100")
    ∷ []

called-promised_example :
    registry_of (foldl (called iso) started calls).auth_keys (codes "key-200")
    ≡ foldl (promised iso) (registry_of started.auth_keys) calls (codes "key-200")
unfolding show_number
called-promised_example = called-promised iso calls started (codes "key-200") refl

-- A change moves the first node to a place.
abbrev drag : ℕ → List FlowNode → List FlowNode
drag x [] = []
drag x (node ∷ nodes) = record node { x = x } ∷ nodes

abbrev keep : ℕ → List FlowEdge → List FlowEdge
keep change edges = edges

abbrev one_node : TopologyNode
one_node = record {
  id = codes "n1";
  hostname = codes "laptop";
  virtual_ip = codes "100.64.0.1";
  status = codes "online";
  is_exit_node = none;
}

abbrev small : MeshTopology
small = record { nodes = one_node ∷ []; connections = [] }

abbrev larger : MeshTopology
larger = record { nodes = one_node ∷ one_node ∷ []; connections = [] }

larger_first : get_elem? (initial_nodes (some larger)) 0 ≡ some (flow_node 0 one_node)
unfolding initial_nodes
larger_first = refl

larger_second : get_elem? (initial_nodes (some larger)) 1 ≡ some (flow_node 1 one_node)
unfolding initial_nodes
larger_second = refl

flow_run_lem_example :
    (graph : Flow) × Draws larger graph
    × (flow_run drag keep (flow_of small) (
          nodes_change 7
          ∷ other_topology (some larger) small
          ∷ edges_change 1
          ∷ nodes_change 9
          ∷ [])
        ≡ changed drag keep (9 ∷ []) (1 ∷ []) graph)
flow_run_lem_example =
    flow_run_lem drag keep (nodes_change 7 ∷ []) (edges_change 1 ∷ nodes_change 9 ∷ [])
      (some larger) small larger (flow_of small) refl (inl refl)

initial_nodes-Apart_example : Apart (flow_node 0 one_node) (flow_node 1 one_node)
initial_nodes-Apart_example =
    initial_nodes-Apart larger 0 1 (flow_node 0 one_node) (flow_node 1 one_node) (omega arith)
      larger_first larger_second
