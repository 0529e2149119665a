-- ===== src/Csv/Documents/Lossless.antt =====
-- The exported documents of web/src/lib/export.ts read back.
use karadul.Base.{
  ℕ, ◌≡◌, refl, Bool, Option, none, some, List, ◌∷◌, map, if◌then◌else◌, Text, codes, text_eq,
}
use karadul.Store.{
  Node, Peer, NodeStatus, online, offline, pending, PeerState, discovered, connecting, direct,
  relayed, idle, expired,
}
use karadul.Json.{JsonValue, string, boolean, array, JsonFields, items_of}
use karadul.Json.Reader.{read_json}
use karadul.Json.RoundTrip.{read_json-stringify}
use karadul.Json.Fields.{
  ◌<*>◌, ◌<&>◌, texts_json, as_list-texts_json, field_of, as_text, as_number, as_boolean, as_list,
  as_object, required, if_present, required-given, if_present-given, as_list-array,
}
use karadul.Csv.{status_text, state_text, Effect, create_object_url}
use karadul.Csv.Documents.{
  natural, node_fields, node_json, peer_fields, peer_json, export_nodes_json, export_peers_json,
}

-- A reader of the documents: an array of objects with the fields of the interfaces.
abbrev as_status : JsonValue → Option NodeStatus
as_status (string s) =
    if text_eq s (codes "online")
    then some online
    else if text_eq s (codes "offline")
    then some offline
    else if text_eq s (codes "pending")
    then some pending
    else none
as_status _ = none

as_status-status_text :
    (status : NodeStatus) → as_status (string (status_text status)) ≡ some status
as_status-status_text online = refl
as_status-status_text offline = refl
as_status-status_text pending = refl

abbrev as_state : JsonValue → Option PeerState
as_state (string s) =
    if text_eq s (codes "Discovered")
    then some discovered
    else if text_eq s (codes "Connecting")
    then some connecting
    else if text_eq s (codes "Direct")
    then some direct
    else if text_eq s (codes "Relayed")
    then some relayed
    else if text_eq s (codes "Idle")
    then some idle
    else if text_eq s (codes "Expired")
    then some expired
    else none
as_state _ = none

as_state-state_text : (state : PeerState) → as_state (string (state_text state)) ≡ some state
as_state-state_text discovered = refl
as_state-state_text connecting = refl
as_state-state_text direct = refl
as_state-state_text relayed = refl
as_state-state_text idle = refl
as_state-state_text expired = refl

abbrev make_node :
    Text
    → Text
    → Text
    → Text
    → NodeStatus
    → Option Text
    → Option Text
    → Option (List Text)
    → Option Bool
    → Option Text
    → Option ℕ
    → Option ℕ
    → Node
make_node id hostname virtual_ip public_key status endpoint last_seen routes is_exit_node
      registered_at rx_bytes tx_bytes =
    record {
      id = id;
      hostname = hostname;
      virtual_ip = virtual_ip;
      public_key = public_key;
      status = status;
      endpoint = endpoint;
      last_seen = last_seen;
      routes = routes;
      is_exit_node = is_exit_node;
      registered_at = registered_at;
      rx_bytes = rx_bytes;
      tx_bytes = tx_bytes;
    }

abbrev node_of : JsonFields → Option Node
node_of fields =
    some make_node
    <*> required as_text (field_of (codes "id") fields)
    <*> required as_text (field_of (codes "hostname") fields)
    <*> required as_text (field_of (codes "virtualIP") fields)
    <*> required as_text (field_of (codes "publicKey") fields)
    <*> required as_status (field_of (codes "status") fields)
    <*> if_present as_text (field_of (codes "endpoint") fields)
    <*> if_present as_text (field_of (codes "lastSeen") fields)
    <*> if_present (as_list as_text) (field_of (codes "routes") fields)
    <*> if_present as_boolean (field_of (codes "isExitNode") fields)
    <*> if_present as_text (field_of (codes "registeredAt") fields)
    <*> if_present as_number (field_of (codes "rxBytes") fields)
    <*> if_present as_number (field_of (codes "txBytes") fields)

node_of-node_json : (node : Node) → as_object node_of (node_json node) ≡ some node
node_of-node_json node =
    let fields = node_fields node in
    refl {a = some make_node}
    <&> required-given as_text (codes "id") fields refl refl
    <&> required-given as_text (codes "hostname") fields refl refl
    <&> required-given as_text (codes "virtualIP") fields refl refl
    <&> required-given as_text (codes "publicKey") fields refl refl
    <&> required-given as_status (codes "status") fields refl (as_status-status_text node.status)
    <&> if_present-given as_text (codes "endpoint") fields string node.endpoint refl (λ s. refl)
    <&> if_present-given as_text (codes "lastSeen") fields string node.last_seen refl (λ s. refl)
    <&> if_present-given (as_list as_text) (codes "routes") fields texts_json node.routes refl
        as_list-texts_json
    <&> if_present-given as_boolean (codes "isExitNode") fields boolean node.is_exit_node refl
        (λ b. refl)
    <&> if_present-given as_text (codes "registeredAt") fields string node.registered_at refl
        (λ s. refl)
    <&> if_present-given as_number (codes "rxBytes") fields natural node.rx_bytes refl (λ n. refl)
    <&> if_present-given as_number (codes "txBytes") fields natural node.tx_bytes refl (λ n. refl)

abbrev make_peer :
    Text → Text → Text → PeerState → Option Text → Option Text → ℕ → ℕ → Option ℕ → Peer
make_peer id hostname virtual_ip state endpoint last_handshake rx_bytes tx_bytes latency = record {
  id = id;
  hostname = hostname;
  virtual_ip = virtual_ip;
  state = state;
  endpoint = endpoint;
  last_handshake = last_handshake;
  rx_bytes = rx_bytes;
  tx_bytes = tx_bytes;
  latency = latency;
}

abbrev peer_of : JsonFields → Option Peer
peer_of fields =
    some make_peer
    <*> required as_text (field_of (codes "id") fields)
    <*> required as_text (field_of (codes "hostname") fields)
    <*> required as_text (field_of (codes "virtualIP") fields)
    <*> required as_state (field_of (codes "state") fields)
    <*> if_present as_text (field_of (codes "endpoint") fields)
    <*> if_present as_text (field_of (codes "lastHandshake") fields)
    <*> required as_number (field_of (codes "rxBytes") fields)
    <*> required as_number (field_of (codes "txBytes") fields)
    <*> if_present as_number (field_of (codes "latency") fields)

peer_of-peer_json : (peer : Peer) → as_object peer_of (peer_json peer) ≡ some peer
peer_of-peer_json peer =
    let fields = peer_fields peer in
    refl {a = some make_peer}
    <&> required-given as_text (codes "id") fields refl refl
    <&> required-given as_text (codes "hostname") fields refl refl
    <&> required-given as_text (codes "virtualIP") fields refl refl
    <&> required-given as_state (codes "state") fields refl (as_state-state_text peer.state)
    <&> if_present-given as_text (codes "endpoint") fields string peer.endpoint refl (λ s. refl)
    <&> if_present-given as_text (codes "lastHandshake") fields string peer.last_handshake refl
        (λ s. refl)
    <&> required-given as_number (codes "rxBytes") fields refl refl
    <&> required-given as_number (codes "txBytes") fields refl refl
    <&> if_present-given as_number (codes "latency") fields natural peer.latency refl (λ n. refl)

-- The content of a file that is downloaded, read as a list.
abbrev read_list : {A : Type 0} → (JsonFields → Option A) → Option JsonValue → Option (List A)
read_list read none = none
read_list read (some v) = as_list (as_object read) v

abbrev pub file_nodes : List Effect → Option (List Node)
file_nodes (create_object_url content mime_type ∷ effects) = read_list node_of (read_json content)
file_nodes _ = none

abbrev pub file_peers : List Effect → Option (List Peer)
file_peers (create_object_url content mime_type ∷ effects) = read_list peer_of (read_json content)
file_peers _ = none

-- The file of the nodes, and that of the peers, holds every field of every node and peer, in the order
-- of the list: a reader of JSON gets the list back.
pub files-export_json :
    (object_url : Text → Text → Text) (iso : Text) (nodes : List Node) (peers : List Peer)
    → (file_nodes (export_nodes_json object_url iso nodes) ≡ some nodes)
      × (file_peers (export_peers_json object_url iso peers) ≡ some peers)
unfolding export_nodes_json export_peers_json
files-export_json object_url iso nodes peers = (
  rw (read_json-stringify 2 (array (items_of (map node_json nodes))))
      (as_list-array (as_object node_of) node_json nodes node_of-node_json),
  rw (read_json-stringify 2 (array (items_of (map peer_json peers))))
      (as_list-array (as_object peer_of) peer_json peers peer_of-peer_json),
)
