-- ===== src/Csv.antt =====
-- web/src/lib/export.ts: tables as CSV, and their download. A row is a value of any type with its
-- fields by column; `item[col]` is `get item col`.
pub mod Reader
pub mod RoundTrip
pub mod Collisions
pub mod Documents
use karadul.Base.{
  ℕ, Bool, true, false, Option, none, some, List, [], ◌∷◌, ◌++◌, map, ◌==◌, if◌then◌else◌, any,
  Text, codes, join, has_unit, show_number,
}
use karadul.Store.{
  Node, Peer, NodeStatus, online, offline, pending, PeerState, discovered, connecting, direct,
  relayed, idle, expired,
}

-- What a field of an exported object can hold.
pub data Value : Type 0 where
  null undefined : Value
  text : Text → Value
  number : ℕ → Value
  boolean : Bool → Value

-- A cell of the table.
abbrev pub cell : Value → Text
cell null = []
cell undefined = []
cell (text s) = if has_unit b',' s then codes "\"" ++ s ++ codes "\"" else s
cell (number n) = show_number n
cell (boolean true) = codes "true"
cell (boolean false) = codes "false"

module _ {A K : Type 0} (name : K → Text) (get : A → K → Value) where
  abbrev pub csv_row : List K → A → Text
  csv_row columns item = join (codes ",") (map (λ col. cell (get item col)) columns)

  -- `toCSV(data, columns)`
  unfoldable pub to_csv : List A → List K → Text
  to_csv items columns =
      join (codes "\n") (join (codes ",") (map name columns) ∷ map (csv_row columns) items)

-- An absent optional field reads as `undefined`.
abbrev optional_text : Option Text → Value
optional_text none = undefined
optional_text (some s) = text s

abbrev optional_number : Option ℕ → Value
optional_number none = undefined
optional_number (some n) = number n

abbrev optional_boolean : Option Bool → Value
optional_boolean none = undefined
optional_boolean (some b) = boolean b

abbrev pub status_text : NodeStatus → Text
status_text online = codes "online"
status_text offline = codes "offline"
status_text pending = codes "pending"

abbrev pub state_text : PeerState → Text
state_text discovered = codes "Discovered"
state_text connecting = codes "Connecting"
state_text direct = codes "Direct"
state_text relayed = codes "Relayed"
state_text idle = codes "Idle"
state_text expired = codes "Expired"

-- The columns of the three exports.
pub data NodeColumn : Type 0 where
  id hostname virtual_ip status endpoint last_seen is_exit_node rx_bytes tx_bytes : NodeColumn

abbrev pub node_columns : List NodeColumn
node_columns =
    id ∷ hostname ∷ virtual_ip ∷ status ∷ endpoint ∷ last_seen ∷ is_exit_node ∷ rx_bytes ∷ tx_bytes
    ∷ []

abbrev pub node_column_name : NodeColumn → Text
node_column_name id = codes "id"
node_column_name hostname = codes "hostname"
node_column_name virtual_ip = codes "virtualIP"
node_column_name status = codes "status"
node_column_name endpoint = codes "endpoint"
node_column_name last_seen = codes "lastSeen"
node_column_name is_exit_node = codes "isExitNode"
node_column_name rx_bytes = codes "rxBytes"
node_column_name tx_bytes = codes "txBytes"

abbrev pub node_value : Node → NodeColumn → Value
node_value node id = text node.id
node_value node hostname = text node.hostname
node_value node virtual_ip = text node.virtual_ip
node_value node status = text (status_text node.status)
node_value node endpoint = optional_text node.endpoint
node_value node last_seen = optional_text node.last_seen
node_value node is_exit_node = optional_boolean node.is_exit_node
node_value node rx_bytes = optional_number node.rx_bytes
node_value node tx_bytes = optional_number node.tx_bytes

pub data PeerColumn : Type 0 where
  id hostname virtual_ip state endpoint latency rx_bytes tx_bytes last_handshake : PeerColumn

abbrev pub peer_columns : List PeerColumn
peer_columns =
    PeerColumn.id ∷ PeerColumn.hostname ∷ PeerColumn.virtual_ip ∷ state ∷ PeerColumn.endpoint
    ∷ latency ∷ PeerColumn.rx_bytes ∷ PeerColumn.tx_bytes ∷ last_handshake ∷ []

abbrev pub peer_column_name : PeerColumn → Text
peer_column_name id = codes "id"
peer_column_name hostname = codes "hostname"
peer_column_name virtual_ip = codes "virtualIP"
peer_column_name state = codes "state"
peer_column_name endpoint = codes "endpoint"
peer_column_name latency = codes "latency"
peer_column_name rx_bytes = codes "rxBytes"
peer_column_name tx_bytes = codes "txBytes"
peer_column_name last_handshake = codes "lastHandshake"

abbrev pub peer_value : Peer → PeerColumn → Value
peer_value peer id = text peer.id
peer_value peer hostname = text peer.hostname
peer_value peer virtual_ip = text peer.virtual_ip
peer_value peer state = text (state_text peer.state)
peer_value peer endpoint = optional_text peer.endpoint
peer_value peer latency = optional_number peer.latency
peer_value peer rx_bytes = number peer.rx_bytes
peer_value peer tx_bytes = number peer.tx_bytes
peer_value peer last_handshake = optional_text peer.last_handshake

pub record AuthKeyExport : Type 0 where
  pub id : Text
  pub key : Text
  pub created_at : Text
  pub expires_at : Option Text
  pub used_by : Option Text

pub data AuthKeyColumn : Type 0 where
  id key created_at expires_at used_by : AuthKeyColumn

abbrev pub auth_key_columns : List AuthKeyColumn
auth_key_columns = AuthKeyColumn.id ∷ key ∷ created_at ∷ expires_at ∷ used_by ∷ []

abbrev pub auth_key_column_name : AuthKeyColumn → Text
auth_key_column_name id = codes "id"
auth_key_column_name key = codes "key"
auth_key_column_name created_at = codes "createdAt"
auth_key_column_name expires_at = codes "expiresAt"
auth_key_column_name used_by = codes "usedBy"

abbrev pub auth_key_value : AuthKeyExport → AuthKeyColumn → Value
auth_key_value k id = text k.id
auth_key_value k key = text k.key
auth_key_value k created_at = text k.created_at
auth_key_value k expires_at = optional_text k.expires_at
auth_key_value k used_by = optional_text k.used_by

-- What the browser is asked to do, in order. An object URL is an opaque text.
pub data Effect : Type 0 where
  create_object_url : Text → Text → Effect
  append_link : Text → Text → Effect
  click_link : Effect
  remove_link : Effect
  revoke_object_url : Text → Effect

module _ (object_url : Text → Text → Text) where
  -- `downloadFile`; `object_url content type` is what `URL.createObjectURL` returns.
  unfoldable pub download_file : Text → Text → Text → List Effect
  download_file content filename mime_type =
      let url = object_url content mime_type in
      create_object_url content mime_type
      ∷ append_link url filename
      ∷ click_link
      ∷ remove_link
      ∷ revoke_object_url url
      ∷ []

  -- `iso` is `new Date().toISOString()`; the file name takes its part before the first "T".
  abbrev date_part : Text → Text
  date_part [] = []
  date_part (c ∷ iso) = if c == b'T' then [] else c ∷ date_part iso

  abbrev file_name : Text → Text → Text → Text
  file_name stem iso extension = stem ++ date_part iso ++ extension

  unfoldable pub export_nodes_csv : Text → List Node → List Effect
  unfolding download_file to_csv
  export_nodes_csv iso nodes =
      download_file (to_csv node_column_name node_value nodes node_columns)
        (file_name (codes "karadul-nodes-") iso (codes ".csv")) (codes "text/csv")

  unfoldable pub export_peers_csv : Text → List Peer → List Effect
  unfolding download_file to_csv
  export_peers_csv iso peers =
      download_file (to_csv peer_column_name peer_value peers peer_columns)
        (file_name (codes "karadul-peers-") iso (codes ".csv")) (codes "text/csv")

  unfoldable pub export_auth_keys_csv : Text → List AuthKeyExport → List Effect
  unfolding download_file to_csv
  export_auth_keys_csv iso keys =
      download_file (to_csv auth_key_column_name auth_key_value keys auth_key_columns)
        (file_name (codes "karadul-auth-keys-") iso (codes ".csv")) (codes "text/csv")
