-- ===== src/Store.antt =====
-- web/src/lib/store.ts: the dashboard's shared state and its actions. Optional fields are `Option`,
-- and numbers are natural: byte counters and milliseconds as they are, the CPU usage in thousandths
-- of a per cent.
pub mod History
pub mod Frame
use karadul.Base.{
  ℕ, ◌-◌, Bool, true, false, not, Option, none, some, List, [], ◌∷◌, ◌++◌, foldl, ltb,
  if◌then◌else◌, length, drop, Text,
}

pub data NodeStatus : Type 0 where
  online offline pending : NodeStatus

pub record Node : Type 0 where
  pub id : Text
  pub hostname : Text
  pub virtual_ip : Text
  pub public_key : Text
  pub status : NodeStatus
  pub endpoint : Option Text
  pub last_seen : Option Text
  pub routes : Option (List Text)
  pub is_exit_node : Option Bool
  pub registered_at : Option Text
  pub rx_bytes : Option ℕ
  pub tx_bytes : Option ℕ

pub data PeerState : Type 0 where
  discovered connecting direct relayed idle expired : PeerState

pub record Peer : Type 0 where
  pub id : Text
  pub hostname : Text
  pub virtual_ip : Text
  pub state : PeerState
  pub endpoint : Option Text
  pub last_handshake : Option Text
  pub rx_bytes : ℕ
  pub tx_bytes : ℕ
  pub latency : Option ℕ

pub record TopologyNode : Type 0 where
  pub id : Text
  pub hostname : Text
  pub virtual_ip : Text
  pub status : Text
  pub is_exit_node : Option Bool

pub data ConnectionType : Type 0 where
  direct relay : ConnectionType

pub record Connection : Type 0 where
  pub from : Text
  pub to : Text
  pub type : ConnectionType
  pub latency : Option ℕ

pub record MeshTopology : Type 0 where
  pub nodes : List TopologyNode
  pub connections : List Connection

pub record SystemStats : Type 0 where
  pub uptime : ℕ
  pub memory_usage : ℕ
  pub cpu_usage : ℕ
  pub goroutines : ℕ
  pub peers_connected : ℕ
  pub total_rx : ℕ
  pub total_tx : ℕ

pub record TrafficPoint : Type 0 where
  pub time : Text
  pub rx : ℕ
  pub tx : ℕ

abbrev pub max_traffic_history : ℕ
max_traffic_history = 30

pub record KaradulState : Type 0 where
  pub nodes : List Node
  pub peers : List Peer
  pub topology : MeshTopology
  pub stats : Option SystemStats
  pub traffic_history : List TrafficPoint
  pub selected_node : Option Node
  pub dark_mode : Bool
  pub is_connected : Bool
  pub is_loading : Bool

-- What `create` starts from.
abbrev pub initial_state : KaradulState
initial_state = record {
  nodes = [];
  peers = [];
  topology = record { nodes = []; connections = [] };
  stats = none;
  traffic_history = [];
  selected_node = none;
  dark_mode = false;
  is_connected = false;
  is_loading = true;
}

-- `splice(0, n)` drops the first n points. The time is what `toLocaleTimeString` printed.
unfoldable pub add_traffic_point : Text → ℕ → ℕ → KaradulState → KaradulState
add_traffic_point time rx tx s =
    let history = s.traffic_history ++ record { time = time; rx = rx; tx = tx } ∷ [] in
    record s {
      traffic_history =
          if ltb max_traffic_history (length history)
          then drop (length history - max_traffic_history) history
          else history;
    }

-- The functions of the state, one constructor each.
pub data Action : Type 0 where
  set_nodes : List Node → Action
  set_peers : List Peer → Action
  set_topology : MeshTopology → Action
  set_stats : SystemStats → Action
  traffic_point : Text → ℕ → ℕ → Action
  set_selected_node : Option Node → Action
  toggle_dark_mode : Action
  set_is_connected : Bool → Action
  set_is_loading : Bool → Action

unfoldable pub act : KaradulState → Action → KaradulState
act s (set_nodes nodes) = record s { nodes = nodes }
act s (set_peers peers) = record s { peers = peers }
act s (set_topology topology) = record s { topology = topology }
act s (set_stats stats) = record s { stats = some stats }
act s (traffic_point time rx tx) = add_traffic_point time rx tx s
act s (set_selected_node node) = record s { selected_node = node }
act s toggle_dark_mode = record s { dark_mode = not s.dark_mode }
act s (set_is_connected connected) = record s { is_connected = connected }
act s (set_is_loading loading) = record s { is_loading = loading }

-- A session: the actions in the order in which the dashboard makes them.
abbrev pub run : KaradulState → List Action → KaradulState
run = foldl act
