-- ===== src/Session/Polls.antt =====
-- What a poll of web/src/lib/api.ts does to the shared state, in its two halves.
use karadul.Base.{
  ℕ, ◌≡◌, refl, Bool, true, false, Option, none, some, List, [], ◌∷◌, get_elem?, all, Text,
}
use karadul.Store.{
  SystemStats, Action, set_nodes, set_peers, set_topology, set_selected_node, toggle_dark_mode,
  set_is_connected, run,
}
use karadul.Api.{Reply, Outcome, ok, err, App, no_options, make_request, read_reply, fetch_api}
use karadul.Api.Queries.{
  settle, fetch_and, stats_actions, nodes_query, peers_query, topology_query, stats_query,
  auth_keys_query, acl_query, config_query,
}
use karadul.Api.Polls.{
  Coordinator, Poll, poll_nodes, poll_peers, poll_topology, poll_keys, poll_rules, poll_config,
  poll_stats, poll_path, send_poll, arrive_poll,
}
use karadul.Session.{World, arrived, arrive}

-- The actions that are made: no part of the dashboard turns the store's theme flag or sets its
-- connection flag, and a node is selected only by a choice.
abbrev pub allowed : Bool → Action → Bool
allowed may_choose toggle_dark_mode = false
allowed may_choose (set_is_connected connected) = false
allowed may_choose (set_selected_node _) = may_choose
allowed may_choose _ = true

-- The store has taken some allowed actions, and nothing else has changed.
abbrev pub Arrived : App → App → Type 0
Arrived app after =
    (actions : List Action) × (after ≡ record app { store = run app.store actions })
    × ((may : Bool) → all (allowed may) actions ≡ true)

settle-Arrived :
    {A : Type 0} (actions : A → List Action) (outcome : Outcome A) (app : App)
    → ((may : Bool) (value : A) → all (allowed may) (actions value) ≡ true)
    → Arrived app (settle actions (outcome, app)).1
unfolding settle
settle-Arrived actions (ok value) app allow = (actions value, refl, λ may. allow may value)
settle-Arrived actions (err reason) app allow = ([], refl, λ may. refl)

stats-allowed :
    (prev : Option SystemStats) (time : Text) (may : Bool) (stats : SystemStats)
    → all (allowed may) (stats_actions prev time stats) ≡ true
stats-allowed none time may stats = refl
stats-allowed (some prev) time may stats = refl

arrive_poll-Arrived :
    (c : Coordinator) (reply : Reply) (time : Text) (poll : Poll) (app : App)
    → Arrived app (arrive_poll c reply time poll app)
unfolding arrive_poll
arrive_poll-Arrived c reply time poll_nodes app =
    settle-Arrived (λ new. set_nodes new ∷ []) (read_reply c.parse_nodes reply) app
      (λ may value. refl)
arrive_poll-Arrived c reply time poll_peers app =
    settle-Arrived (λ new. set_peers new ∷ []) (read_reply c.parse_peers reply) app
      (λ may value. refl)
arrive_poll-Arrived c reply time poll_topology app =
    settle-Arrived (λ new. set_topology new ∷ []) (read_reply c.parse_topology reply) app
      (λ may value. refl)
arrive_poll-Arrived c reply time (poll_stats prev) app =
    settle-Arrived (stats_actions prev time) (read_reply c.parse_stats reply) app
      (stats-allowed prev time)
arrive_poll-Arrived c reply time poll_keys app = ([], refl, λ may. refl)
arrive_poll-Arrived c reply time poll_rules app = ([], refl, λ may. refl)
arrive_poll-Arrived c reply time poll_config app = ([], refl, λ may. refl)

arrived-Arrived :
    (c : Coordinator) (reply : Reply) (time : Text) (i : ℕ) (o : Option Poll) (w : World)
    → Arrived w.app (arrived c reply time i o w).app
unfolding arrived
arrived-Arrived c reply time i none w = ([], refl, λ may. refl)
arrived-Arrived c reply time i (some poll) w = arrive_poll-Arrived c reply time poll w.app

pub arrive-Arrived :
    (c : Coordinator) (reply : Reply) (time : Text) (i : ℕ) (w : World)
    → Arrived w.app (arrive c reply time i w).app
unfolding arrive
arrive-Arrived c reply time i w = arrived-Arrived c reply time i (get_elem? w.under_way i) w

-- A reply changes none of the pages.
arrived_page :
    (c : Coordinator) (reply : Reply) (time : Text) (i : ℕ) (o : Option Poll) (w : World)
    → (arrived c reply time i o w).settings_page ≡ w.settings_page
unfolding arrived
arrived_page c reply time i none w = refl
arrived_page c reply time i (some poll) w = refl

pub arrive_page :
    (c : Coordinator) (reply : Reply) (time : Text) (i : ℕ) (w : World)
    → (arrive c reply time i w).settings_page ≡ w.settings_page
unfolding arrive
arrive_page c reply time i w = arrived_page c reply time i (get_elem? w.under_way i) w

arrived-nodes_page :
    (c : Coordinator) (reply : Reply) (time : Text) (i : ℕ) (o : Option Poll) (w : World)
    → (arrived c reply time i o w).nodes_page ≡ w.nodes_page
unfolding arrived
arrived-nodes_page c reply time i none w = refl
arrived-nodes_page c reply time i (some poll) w = refl

pub arrive-nodes_page :
    (c : Coordinator) (reply : Reply) (time : Text) (i : ℕ) (w : World)
    → (arrive c reply time i w).nodes_page ≡ w.nodes_page
unfolding arrive
arrive-nodes_page c reply time i w = arrived-nodes_page c reply time i (get_elem? w.under_way i) w

-- What a poll makes of the state if nothing happens between its two halves.
abbrev pub uninterrupted : Coordinator → Text → Poll → App → App
unfolding send_poll arrive_poll
uninterrupted c time poll app =
    arrive_poll c (c.serve (make_request (poll_path poll) no_options app.storage)) time poll
      (send_poll poll app)

-- Each of the seven query functions is the two halves of its poll, with the reply of the coordinator to
-- the request that the first half sends.
pub queries-halves :
    (c : Coordinator) (prev : Option SystemStats) (time : Text) (app : App)
    → ((nodes_query c.serve c.parse_nodes app).1 ≡ uninterrupted c time poll_nodes app)
      × ((peers_query c.serve c.parse_peers app).1 ≡ uninterrupted c time poll_peers app)
      × ((topology_query c.serve c.parse_topology app).1 ≡ uninterrupted c time poll_topology app)
      × ((stats_query c.serve c.parse_stats prev time app).1
          ≡ uninterrupted c time (poll_stats prev) app)
      × ((auth_keys_query c.serve c.parse_keys app).1 ≡ uninterrupted c time poll_keys app)
      × ((acl_query c.serve c.parse_rules app).1 ≡ uninterrupted c time poll_rules app)
      × ((config_query c.serve c.parse_config app).1 ≡ uninterrupted c time poll_config app)
unfolding nodes_query peers_query topology_query stats_query auth_keys_query acl_query config_query
    fetch_and fetch_api uninterrupted
queries-halves c prev time app = (refl, refl, refl, refl, refl, refl, refl)
