-- ===== src/Api/Polls.antt =====
-- The polls of web/src/lib/api.ts in two halves: the request, and what is done when its reply arrives.
use karadul.Base.{Option, List, [], ◌∷◌, ◌++◌, Text, codes}
use karadul.Store.{Node, Peer, MeshTopology, SystemStats, set_nodes, set_peers, set_topology}
use karadul.Api.{Request, Reply, Outcome, App, no_options, make_request, read_reply}
use karadul.Api.Mutations.{AuthKey, ServerConfig}
use karadul.Api.Queries.{settle, stats_actions, AclReply}

-- The coordinator at one moment: its replies, and what `response.json()` makes of them for each caller.
pub record Coordinator : Type 0 where
  pub serve : Request → Reply
  pub parse : Text → Outcome (Unit {0})
  pub parse_nodes : Text → Outcome (List Node)
  pub parse_peers : Text → Outcome (List Peer)
  pub parse_topology : Text → Outcome MeshTopology
  pub parse_stats : Text → Outcome SystemStats
  pub parse_keys : Text → Outcome (List AuthKey)
  pub parse_key : Text → Outcome AuthKey
  pub parse_rules : Text → Outcome AclReply
  pub parse_config : Text → Outcome ServerConfig

-- The queries that the hooks poll. The statistics come with those of the last rendering.
pub data Poll : Type 0 where
  poll_nodes poll_peers poll_topology poll_keys poll_rules poll_config : Poll
  poll_stats : Option SystemStats → Poll

abbrev pub poll_path : Poll → Text
poll_path poll_nodes = codes "/v1/admin/nodes"
poll_path poll_peers = codes "/v1/peers"
poll_path poll_topology = codes "/v1/topology"
poll_path (poll_stats prev) = codes "/v1/status"
poll_path poll_keys = codes "/v1/admin/auth-keys"
poll_path poll_rules = codes "/v1/admin/acl"
poll_path poll_config = codes "/v1/admin/config"

-- The first half of a query function, up to the `await`.
unfoldable pub send_poll : Poll → App → App
unfolding make_request
send_poll poll app = record app {
  requests = app.requests ++ make_request (poll_path poll) no_options app.storage ∷ [];
}

-- The second half, with the reply and the time that is printed. The queries of the settings page keep
-- their data for the page alone.
unfoldable pub arrive_poll : Coordinator → Reply → Text → Poll → App → App
unfolding settle read_reply
arrive_poll c reply time poll_nodes app =
    (settle (λ new. set_nodes new ∷ []) (read_reply c.parse_nodes reply, app)).1
arrive_poll c reply time poll_peers app =
    (settle (λ new. set_peers new ∷ []) (read_reply c.parse_peers reply, app)).1
arrive_poll c reply time poll_topology app =
    (settle (λ new. set_topology new ∷ []) (read_reply c.parse_topology reply, app)).1
arrive_poll c reply time (poll_stats prev) app =
    (settle (stats_actions prev time) (read_reply c.parse_stats reply, app)).1
arrive_poll c reply time poll_keys app = app
arrive_poll c reply time poll_rules app = app
arrive_poll c reply time poll_config app = app
