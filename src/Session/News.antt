-- ===== src/Session/News.antt =====
-- What the running dashboard hears: the messages of web/src/lib/websocket.tsx and the replies to the polls of
-- web/src/lib/api.ts, as news of the mesh, and what is known of the mesh after them.
use mathlib.Core.List.{append-nil, append_assoc}
use karadul.Base.{
  ◌-◌, ◌≤◌, ◌≡◌, refl, sym, ap, ◌∙◌, true, false, Option, none, some, List, [], ◌∷◌, ◌++◌, foldl,
  length, get_elem?, erase_idx, Text,
}
use karadul.Store.{
  Node, Peer, MeshTopology, SystemStats, TrafficPoint, KaradulState, max_traffic_history,
}
use karadul.Store.History.{take_last, take_last_all, take_last-append, length-take_last}
use karadul.Socket.{
  Payload, nodes_message, peers_message, topology_message, stats_message, unknown_message,
  malformed,
}
use karadul.Api.{Reply, rejected, response, Outcome, ok, err}
use karadul.Api.Polls.{
  Coordinator, Poll, poll_nodes, poll_peers, poll_topology, poll_keys, poll_rules, poll_config,
  poll_stats,
}
use karadul.Session.{Move, sends, arrives, message}

pub data News : Type 0 where
  new_nodes : List Node → News
  new_peers : List Peer → News
  new_topology : MeshTopology → News
  new_stats : SystemStats → News
  new_point : TrafficPoint → News

abbrev pub told : Payload → List News
told (nodes_message nodes) = new_nodes nodes ∷ []
told (peers_message peers) = new_peers peers ∷ []
told (topology_message topology) = new_topology topology ∷ []
told (stats_message stats) = new_stats stats ∷ []
told (unknown_message type) = []
told malformed = []

-- The value of a reply: of a response that is `ok` and whose body parses.
abbrev pub parsed_value : {A : Type 0} → Outcome A → Option A
parsed_value (ok value) = some value
parsed_value (err reason) = none

abbrev pub brought : {A : Type 0} → (Text → Outcome A) → Reply → Option A
brought parse (rejected reason) = none
brought parse (response true status body) = parsed_value (parse body)
brought parse (response false status body) = none

abbrev pub news_if : {A : Type 0} → (A → List News) → Option A → List News
news_if news none = []
news_if news (some value) = news value

-- The point of a poll of the statistics: what the counters have gained since those it was sent with.
abbrev pub gained : Option SystemStats → Text → SystemStats → TrafficPoint
gained none time stats = record { time = time; rx = stats.total_rx; tx = stats.total_tx }
gained (some prev) time stats = record {
  time = time;
  rx = stats.total_rx - prev.total_rx;
  tx = stats.total_tx - prev.total_tx;
}

abbrev pub replied : Coordinator → Reply → Text → Poll → List News
replied c reply time poll_nodes = news_if (λ v. new_nodes v ∷ []) (brought c.parse_nodes reply)
replied c reply time poll_peers = news_if (λ v. new_peers v ∷ []) (brought c.parse_peers reply)
replied c reply time poll_topology =
    news_if (λ v. new_topology v ∷ []) (brought c.parse_topology reply)
replied c reply time (poll_stats prev) =
    news_if (λ v. new_stats v ∷ new_point (gained prev time v) ∷ []) (brought c.parse_stats reply)
replied c reply time poll_keys = []
replied c reply time poll_rules = []
replied c reply time poll_config = []

-- What one move brings, where the polls are under way, and the polls that are under way after it.
abbrev pub heard : List Poll → Move → List News
heard polls (message payload) = told payload
heard polls (arrives c reply time i) = elim (get_elem? polls i) [
  | none ↦ []
  | some poll ↦ replied c reply time poll
]
heard polls _ = []

abbrev pub polls_after : List Poll → Move → List Poll
polls_after polls (sends poll) = polls ++ poll ∷ []
polls_after polls (arrives c reply time i) = elim (get_elem? polls i) [
  | none ↦ polls
  | some poll ↦ erase_idx polls i
]
polls_after polls _ = polls

-- The news of a session, in their order.
abbrev pub all_heard : List Poll → List Move → List News
all_heard polls [] = []
all_heard polls (m ∷ moves) = heard polls m ++ all_heard (polls_after polls m) moves

-- The last news of a kind, and a first value where there was none.
abbrev pub last_of : {A : Type 0} → (News → Option A) → A → List News → A
last_of pick old [] = old
last_of pick old (n ∷ news) = last_of pick (elim (pick n) [ none ↦ old | some new ↦ new ]) news

abbrev pub nodes_in : News → Option (List Node)
nodes_in (new_nodes nodes) = some nodes
nodes_in _ = none

abbrev pub peers_in : News → Option (List Peer)
peers_in (new_peers peers) = some peers
peers_in _ = none

abbrev pub topology_in : News → Option MeshTopology
topology_in (new_topology topology) = some topology
topology_in _ = none

abbrev pub stats_in : News → Option (Option SystemStats)
stats_in (new_stats stats) = some (some stats)
stats_in _ = none

abbrev pub points_in : List News → List TrafficPoint
points_in [] = []
points_in (new_point point ∷ news) = point ∷ points_in news
points_in (_ ∷ news) = points_in news

-- The part of the store that is about the mesh, and what a news makes of it.
pub record Known : Type 0 where
  pub nodes : List Node
  pub peers : List Peer
  pub topology : MeshTopology
  pub stats : Option SystemStats
  pub traffic_history : List TrafficPoint

abbrev pub known : KaradulState → Known
known s = record {
  nodes = s.nodes;
  peers = s.peers;
  topology = s.topology;
  stats = s.stats;
  traffic_history = s.traffic_history;
}

abbrev pub learn : Known → News → Known
learn k (new_nodes nodes) = record k { nodes = nodes }
learn k (new_peers peers) = record k { peers = peers }
learn k (new_topology topology) = record k { topology = topology }
learn k (new_stats stats) = record k { stats = some stats }
learn k (new_point point) = record k {
  traffic_history = take_last max_traffic_history (k.traffic_history ++ point ∷ []);
}

-- All that is known is the last news of each kind, and the last points.
abbrev pub IsNewest : Known → List News → Known → Type 0
IsNewest k news after =
    (after.nodes ≡ last_of nodes_in k.nodes news)
    × (after.peers ≡ last_of peers_in k.peers news)
    × (after.topology ≡ last_of topology_in k.topology news)
    × (after.stats ≡ last_of stats_in k.stats news)
    × (after.traffic_history ≡ take_last max_traffic_history (k.traffic_history ++ points_in news))

pub foldl-learn-IsNewest :
    (news : List News) (k : Known)
    → length k.traffic_history ≤ max_traffic_history
    → IsNewest k news (foldl learn k news)
foldl-learn-IsNewest [] k h = (
  refl,
  refl,
  refl,
  refl,
  rw append-nil (sym (take_last_all max_traffic_history k.traffic_history h)),
)
foldl-learn-IsNewest (new_nodes nodes ∷ news) k h = foldl-learn-IsNewest news _ h
foldl-learn-IsNewest (new_peers peers ∷ news) k h = foldl-learn-IsNewest news _ h
foldl-learn-IsNewest (new_topology topology ∷ news) k h = foldl-learn-IsNewest news _ h
foldl-learn-IsNewest (new_stats stats ∷ news) k h = foldl-learn-IsNewest news _ h
foldl-learn-IsNewest (new_point point ∷ news) k h =
    let after = learn k (new_point point) in
    let (nodes, peers, topology, stats, history) =
      foldl-learn-IsNewest news after
        (length-take_last max_traffic_history (k.traffic_history ++ point ∷ [])) in
    (
      nodes,
      peers,
      topology,
      stats,
      history
          ∙ take_last-append max_traffic_history (k.traffic_history ++ point ∷ []) (points_in news)
          ∙ ap (take_last max_traffic_history) (append_assoc k.traffic_history _ _),
    )
