-- ===== src/Api/Queries.antt =====
-- The query functions of web/src/lib/api.ts: what each polling hook fetches and stores.
pub mod Traffic
use karadul.Base.{
  ◌-◌, ◌≡◌, refl, ◌⊎◌, inl, inr, true, false, Option, none, some, List, [], ◌∷◌, ◌++◌, Text, codes,
  show_number,
}
use karadul.Store.{
  Node, Peer, MeshTopology, SystemStats, KaradulState, Action, set_nodes, set_peers, set_topology,
  set_stats, traffic_point, act, run,
}
use karadul.Api.Mutations.{AuthKey, AclRule, ServerConfig}
use karadul.Api.{
  Request, Reply, rejected, response, Outcome, ok, err, App, no_options, make_request, read_reply,
  fetch_api,
}

-- The actions with the value, on success.
unfoldable pub settle : {A : Type 0} → (A → List Action) → Outcome A × App → Outcome A × App
settle actions (ok value, app) = (ok value, record app { store = run app.store (actions value) })
settle actions (err message, app) = (err message, app)

-- `const value = await fetchApi(path)` and the actions with the value; an error goes on.
unfoldable pub fetch_and :
    {A : Type 0}
    → (Request → Reply)
    → (Text → Outcome A)
    → Text
    → (A → List Action)
    → App
    → Outcome A × App
unfolding fetch_api settle
fetch_and serve parse path actions app = settle actions (fetch_api serve parse path no_options app)

-- The points of `useStats`: what has come since the statistics of the last rendering, and nothing
-- less than nothing.
abbrev pub traffic_since : Option SystemStats → Text → SystemStats → Action
traffic_since none time stats = traffic_point time stats.total_rx stats.total_tx
traffic_since (some prev) time stats =
    traffic_point time (stats.total_rx - prev.total_rx) (stats.total_tx - prev.total_tx)

abbrev pub stats_actions : Option SystemStats → Text → SystemStats → List Action
stats_actions prev time stats = set_stats stats ∷ traffic_since prev time stats ∷ []

module _ (serve : Request → Reply) where
  unfoldable pub nodes_query : (Text → Outcome (List Node)) → App → Outcome (List Node) × App
  unfolding fetch_and
  nodes_query parse =
      fetch_and serve parse (codes "/v1/admin/nodes") (λ nodes. set_nodes nodes ∷ [])

  unfoldable pub peers_query : (Text → Outcome (List Peer)) → App → Outcome (List Peer) × App
  unfolding fetch_and
  peers_query parse = fetch_and serve parse (codes "/v1/peers") (λ peers. set_peers peers ∷ [])

  unfoldable pub topology_query : (Text → Outcome MeshTopology) → App → Outcome MeshTopology × App
  unfolding fetch_and
  topology_query parse =
      fetch_and serve parse (codes "/v1/topology") (λ topology. set_topology topology ∷ [])

  -- `prev` is the store's `stats` when the component was last rendered.
  unfoldable pub stats_query :
      (Text → Outcome SystemStats) → Option SystemStats → Text → App → Outcome SystemStats × App
  unfolding fetch_and
  stats_query parse prev time = fetch_and serve parse (codes "/v1/status") (stats_actions prev time)

-- `data` of `useACL`
pub record AclReply : Type 0 where
  pub rules : List AclRule

-- The queries of the settings page, which store nothing.
module _ (serve : Request → Reply) where
  unfoldable pub auth_keys_query :
      (Text → Outcome (List AuthKey)) → App → Outcome (List AuthKey) × App
  unfolding fetch_api
  auth_keys_query parse = fetch_api serve parse (codes "/v1/admin/auth-keys") no_options

  unfoldable pub acl_query : (Text → Outcome AclReply) → App → Outcome AclReply × App
  unfolding fetch_api
  acl_query parse = fetch_api serve parse (codes "/v1/admin/acl") no_options

  unfoldable pub config_query : (Text → Outcome ServerConfig) → App → Outcome ServerConfig × App
  unfolding fetch_api
  config_query parse = fetch_api serve parse (codes "/v1/admin/config") no_options

-- What a poll may change besides the store.
abbrev pub after_request : Text → App → App
after_request path app = record app {
  requests = app.requests ++ make_request path no_options app.storage ∷ [];
}

-- Why `fetchApi` throws, reply by reply: the coordinator is not reached; it refuses, with its text or
-- with none; or it answers with something that is no JSON.
abbrev pub FailsWith : {A : Type 0} → (Text → Outcome A) → Reply → Text → Type 0
FailsWith parse (rejected reason) message = message ≡ reason
FailsWith parse (response true status body) message = parse body ≡ err message
FailsWith parse (response false status []) message = message ≡ codes "HTTP " ++ show_number status
FailsWith parse (response false status (c ∷ body)) message = message ≡ c ∷ body

-- The reply is a response that is `ok` with a body that parses to the value.
abbrev pub Brings : {A : Type 0} → (Text → Outcome A) → Reply → A → Type 0
Brings parse (rejected reason) value = ⊥
Brings parse (response true status body) value = parse body ≡ ok value
Brings parse (response false status body) value = ⊥

-- A poll of the path ended with the value that the reply to its request brings, whose actions the store
-- has taken, or with the error that the reply is and a store that is as it was.
abbrev pub Settles :
    {A : Type 0}
    → (Request → Reply)
    → (Text → Outcome A)
    → Text
    → (A → List Action)
    → App
    → Outcome A × App
    → Type 0
Settles {A} serve parse path actions app (outcome, after) =
    let reply = serve (make_request path no_options app.storage) in
    let sent = after_request path app in
    ((value : A) × Brings parse reply value
      × (outcome ≡ ok value)
      × (after ≡ record sent { store = run app.store (actions value) }))
    ⊎ ((message : Text) × FailsWith parse reply message × (outcome ≡ err message) × (after ≡ sent))

-- The two ends of reading a reply.
pub read_reply-cases :
    {A : Type 0} (parse : Text → Outcome A) (reply : Reply)
    → ((value : A) × Brings parse reply value × (read_reply parse reply ≡ ok value))
      ⊎ ((message : Text) × FailsWith parse reply message × (read_reply parse reply ≡ err message))
unfolding read_reply
read_reply-cases parse (rejected reason) = inr (reason, refl, refl)
read_reply-cases {A} parse (response true status body) = parsed (parse body)
  where
    parsed :
        (o : Outcome A)
        → ((value : A) × (o ≡ ok value) × (o ≡ ok value))
          ⊎ ((message : Text) × (o ≡ err message) × (o ≡ err message))
    parsed (ok value) = inl (value, refl, refl)
    parsed (err message) = inr (message, refl, refl)
read_reply-cases parse (response false status []) = inr (_, refl, refl)
read_reply-cases parse (response false status (c ∷ body)) = inr (_, refl, refl)

fetch_and-Settles :
    {A : Type 0} (serve : Request → Reply) (parse : Text → Outcome A) (path : Text)
    (actions : A → List Action) (app : App)
    → Settles serve parse path actions app (fetch_and serve parse path actions app)
unfolding fetch_and settle
fetch_and-Settles serve parse path actions app =
    elim (read_reply-cases parse (serve (make_request path no_options app.storage))) [
      | inl (value, brings, e) ↦ rw e (inl (value, brings, refl, refl))
      | inr (message, fails, e) ↦ rw e (inr (message, fails, refl, refl))
    ]

fetch_api-Settles :
    {A : Type 0} (serve : Request → Reply) (parse : Text → Outcome A) (path : Text) (app : App)
    → Settles serve parse path (λ value. []) app (fetch_api serve parse path no_options app)
unfolding fetch_api
fetch_api-Settles serve parse path app =
    elim (read_reply-cases parse (serve (make_request path no_options app.storage))) [
      | inl (value, brings, e) ↦ rw e (inl (value, brings, refl, refl))
      | inr (message, fails, e) ↦ rw e (inr (message, fails, refl, refl))
    ]

-- Each of the three queries of the settings page sends the one request of its path, brings the value of
-- the reply or its error, and leaves the store as it is.
pub settings_queries-Settles :
    (serve : Request → Reply) (parse_keys : Text → Outcome (List AuthKey))
    (parse_rules : Text → Outcome AclReply) (parse_config : Text → Outcome ServerConfig) (app : App)
    → Settles serve parse_keys
        (codes "/v1/admin/auth-keys")
        (λ keys. [])
        app
        (auth_keys_query serve parse_keys app)
      × Settles serve parse_rules
          (codes "/v1/admin/acl")
          (λ reply. [])
          app
          (acl_query serve parse_rules app)
      × Settles serve parse_config
          (codes "/v1/admin/config")
          (λ config. [])
          app
          (config_query serve parse_config app)
unfolding auth_keys_query acl_query config_query
settings_queries-Settles serve parse_keys parse_rules parse_config app = (
  fetch_api-Settles serve parse_keys (codes "/v1/admin/auth-keys") app,
  fetch_api-Settles serve parse_rules (codes "/v1/admin/acl") app,
  fetch_api-Settles serve parse_config (codes "/v1/admin/config") app,
)

-- Each of the four polls that store their result sends the one request of its path. Where the reply is
-- `ok` and its body parses to a value, the poll brings this value and the store takes it, the
-- statistics with their point of the chart. It fails with the reason of the rejection where the
-- coordinator is not reached, with the text of the reply or, if that is empty, `HTTP` and the status
-- where the reply is not `ok`, and with the error of the parser where the body is no JSON; then the
-- store keeps what the last successful poll brought. Nothing else changes.
pub queries-Settles :
    (serve : Request → Reply) (parse_nodes : Text → Outcome (List Node))
    (parse_peers : Text → Outcome (List Peer)) (parse_topology : Text → Outcome MeshTopology)
    (parse_stats : Text → Outcome SystemStats) (prev : Option SystemStats) (time : Text) (app : App)
    → Settles serve parse_nodes
        (codes "/v1/admin/nodes")
        (λ nodes. set_nodes nodes ∷ [])
        app
        (nodes_query serve parse_nodes app)
      × Settles serve parse_peers
          (codes "/v1/peers")
          (λ peers. set_peers peers ∷ [])
          app
          (peers_query serve parse_peers app)
      × Settles serve parse_topology
          (codes "/v1/topology")
          (λ topology. set_topology topology ∷ [])
          app
          (topology_query serve parse_topology app)
      × Settles serve parse_stats
          (codes "/v1/status")
          (stats_actions prev time)
          app
          (stats_query serve parse_stats prev time app)
unfolding nodes_query peers_query topology_query stats_query
queries-Settles serve parse_nodes parse_peers parse_topology parse_stats prev time app = (
  fetch_and-Settles serve parse_nodes (codes "/v1/admin/nodes") (λ nodes. set_nodes nodes ∷ []) app,
  fetch_and-Settles serve parse_peers (codes "/v1/peers") (λ peers. set_peers peers ∷ []) app,
  fetch_and-Settles serve parse_topology (codes "/v1/topology")
      (λ topology. set_topology topology ∷ []) app,
  fetch_and-Settles serve parse_stats (codes "/v1/status") (stats_actions prev time) app,
)
