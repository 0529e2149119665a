-- ===== src/Csv/Documents.antt =====
-- web/src/lib/export.ts: the nodes and the peers as a JSON document. The fields stand in the order of
-- the interfaces in web/src/lib/store.ts.
pub mod Lossless
use karadul.Base.{ℕ, Option, some, List, [], ◌∷◌, map, Text, codes, pos}
use karadul.Store.{
  Node, Peer, NodeStatus, online, offline, pending, PeerState, discovered, connecting, direct,
  relayed, idle, expired,
}
use karadul.Json.{JsonValue, string, number, boolean, array, object, items_of, fields_of, stringify}
use karadul.Json.Reader.{read_json}
use karadul.Json.RoundTrip.{read_json-stringify}
use karadul.Json.Fields.{
  texts_json, optional, field_of, given, field_of-fields_of, or_later-none, as_text, as_number,
  as_boolean, as_list, required, if_present, if_present-optional, as_list-array,
}
use karadul.Csv.{status_text, state_text, Effect, create_object_url, download_file, file_name}

abbrev natural : ℕ → JsonValue
natural n = number (pos n)

abbrev node_fields : Node → List (Text × Option JsonValue)
node_fields node =
    (codes "id", some (string node.id))
    ∷ (codes "hostname", some (string node.hostname))
    ∷ (codes "virtualIP", some (string node.virtual_ip))
    ∷ (codes "publicKey", some (string node.public_key))
    ∷ (codes "status", some (string (status_text node.status)))
    ∷ (codes "endpoint", optional string node.endpoint)
    ∷ (codes "lastSeen", optional string node.last_seen)
    ∷ (codes "routes", optional texts_json node.routes)
    ∷ (codes "isExitNode", optional boolean node.is_exit_node)
    ∷ (codes "registeredAt", optional string node.registered_at)
    ∷ (codes "rxBytes", optional natural node.rx_bytes)
    ∷ (codes "txBytes", optional natural node.tx_bytes)
    ∷ []

abbrev node_json : Node → JsonValue
node_json node = object (fields_of (node_fields node))

abbrev peer_fields : Peer → List (Text × Option JsonValue)
peer_fields peer =
    (codes "id", some (string peer.id))
    ∷ (codes "hostname", some (string peer.hostname))
    ∷ (codes "virtualIP", some (string peer.virtual_ip))
    ∷ (codes "state", some (string (state_text peer.state)))
    ∷ (codes "endpoint", optional string peer.endpoint)
    ∷ (codes "lastHandshake", optional string peer.last_handshake)
    ∷ (codes "rxBytes", some (natural peer.rx_bytes))
    ∷ (codes "txBytes", some (natural peer.tx_bytes))
    ∷ (codes "latency", optional natural peer.latency)
    ∷ []

abbrev peer_json : Peer → JsonValue
peer_json peer = object (fields_of (peer_fields peer))

module _ (object_url : Text → Text → Text) where
  unfoldable pub export_nodes_json : Text → List Node → List Effect
  unfolding download_file stringify
  export_nodes_json iso nodes =
      download_file object_url (stringify 2 (array (items_of (map node_json nodes))))
        (file_name object_url (codes "karadul-nodes-") iso (codes ".json"))
        (codes "application/json")

  unfoldable pub export_peers_json : Text → List Peer → List Effect
  unfolding download_file stringify
  export_peers_json iso peers =
      download_file object_url (stringify 2 (array (items_of (map peer_json peers))))
        (file_name object_url (codes "karadul-peers-") iso (codes ".json"))
        (codes "application/json")
