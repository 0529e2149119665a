-- ===== src/Session.antt =====
-- The running dashboard: web/src/App.tsx with its pages, the hooks of web/src/lib/api.ts and the messages
-- of web/src/lib/websocket.tsx over the one store, the one storage and the one query cache.
pub mod Cases
pub mod Polls
pub mod Actions
pub mod Choice
pub mod News
pub mod Replies
pub mod Learning
pub mod Loaded
pub mod Requests
pub mod Stored
pub mod Shown
pub mod Late
pub mod Justified
pub mod Deletions
use karadul.Base.{
  ℕ, zero, suc, ◌+◌, ◌-◌, ◌*◌, ◌/◌, ◌%◌, ◌^◌, ◌≤◌, ◌<◌, min, ◌≡◌, refl, sym, ap, ◌∙◌, ◌≢◌, ◌↔◌, ◌⊎◌,
  inl, inr, Bool, true, false, not, ◌&&◌, ◌||◌, Option, none, some, List, [], ◌∷◌, ◌++◌, map, foldl,
  arith, ltb, leb, ◌==◌, if◌then◌else◌, ltb→lt, lt→ltb, leb→le, ==_iff, Bool-cases, Option-cases,
  length, get_elem?, set, drop, replicate, filter, find, any, all, count, length-append,
  length-drop, length-filter_le, length-filter, count-append, count-set, drop-append_le, drop-drop,
  length-map, Text, codes, text_eq, text_eq_refl, eq_of_text_eq, starts_with, includes,
  includes-empty, lower_unit, to_lower_case, join, has_unit, has_unit-append, show_number,
  read_digit, parse_int, is_digit, parse_int-show_number, tests, get_elem?-append_length,
  get_elem?-set_self, get_elem?-set_ne, count-pos, All, has_unit-show_number, text_eq_iff,
  all-append, IsDigits, show_number-IsDigits, ℤ, pos, negsuc, negate, show_integer, lt_or_le,
  All-append, erase_idx,
}
use karadul.Store.{Node, Peer, MeshTopology, SystemStats, set_nodes, set_peers, set_topology}
use karadul.Theme.{system, initial_theme}
use karadul.Store.{KaradulState, initial_state}
use karadul.Storage.{Storage}
use karadul.Api.{
  Request, Reply, Outcome, App, get_admin_token, no_options, make_request, read_reply,
}
use karadul.Api.Mutations.{AuthKey, ServerConfig}
use karadul.Api.Mutations.Runner.{Runner}
use karadul.Api.Queries.{AclReply}
use karadul.Api.Polls.{Coordinator, Poll, send_poll, arrive_poll}
use karadul.Socket.{Payload, on_message}
use karadul.Shell.{
  Page, dashboard, topology, nodes, peers, settings, not_found, page_of, ShellState, ShellEvent,
  shell_update,
}
use karadul.Pages.Nodes.{NodesPage}
use karadul.Pages.Nodes.Rendering.{NodesEvent}
use karadul.Pages.Nodes.Offers.{nodes_update}
use karadul.Pages.Peers.{all_peers}
use karadul.Pages.Peers.Cards.{PeersPage, PeersEvent, peers_update}
use karadul.Pages.Topology.Rendering.{TopologyEvent, topology_update}
use karadul.Pages.Dashboard.{Queries, loading_effect}
use karadul.Pages.Settings.{SettingsPage}
use karadul.Pages.Settings.Events.{Tab, auth_keys, SettingsEvent, SettingsState, settings_update}
use karadul.Pages.Settings.Effects.{Effects, unmounted, commit}

-- What can happen next. Each time the coordinator may answer in another way.
pub data Move : Type 0 where
  -- a poll sends its request, and at some time its reply arrives, for a poll that is under way
  sends : Poll → Move
  arrives : Coordinator → Reply → Text → ℕ → Move
  message : Payload → Move
  -- an event of the frame, with the location that the browser would go back to
  at_shell : Text → ShellEvent → Move
  -- an effect of the dashboard, and a rendering of the settings with what its queries have
  at_dashboard : Queries → Move
  render_settings : Option ServerConfig → Option AclReply → Move
  at_nodes : Coordinator → NodesEvent → Move
  at_peers : PeersEvent → Move
  -- with the nodes that the query has
  at_topology : Option (List Node) → TopologyEvent → Move
  at_settings : Coordinator → SettingsEvent → Move

-- The shared state, the frame and the local state of the pages.
pub record World : Type 0 where
  pub app : App
  pub under_way : List Poll
  pub pathname : Text
  pub mobile_menu_open : Bool
  pub theme : Text
  pub nodes_page : NodesPage
  pub peers_page : PeersPage
  pub tab : Tab
  pub settings_page : SettingsPage
  pub effects : Effects

-- Two locations show the same page.
abbrev pub same_page : Page → Page → Bool
same_page dashboard dashboard = true
same_page topology topology = true
same_page nodes nodes = true
same_page peers peers = true
same_page settings settings = true
same_page not_found not_found = true
same_page _ _ = false

-- The local state that a page starts from when it is mounted. The token is the stored one.
abbrev pub first_nodes_page : NodesPage
first_nodes_page = record { node_to_delete = none; search_query = [] }

abbrev pub first_peers_page : PeersPage
first_peers_page = record { filter_value = all_peers; search_query = []; selected_peer = none }

abbrev pub first_settings_page : Text → SettingsPage
first_settings_page token = record {
  new_key_expires_in = [];
  show_create_dialog = false;
  copied_key = none;
  acl_rules = [];
  config_form = record {
    addr = none;
    tls = none;
    approval_mode = none;
    subnet = none;
    data_dir = none;
    log_level = none;
    log_format = none;
    rate_limit = none;
  };
  admin_token = token;
}

abbrev pub mount_pages : World → World
unfolding get_admin_token
mount_pages w = record w {
  nodes_page = first_nodes_page;
  peers_page = first_peers_page;
  tab = auth_keys;
  settings_page = first_settings_page (get_admin_token w.app.storage);
  effects = unmounted;
}

-- The dashboard when it is loaded, with what the storage has kept.
unfoldable pub first_world : Text → Storage → World
unfolding initial_theme get_admin_token
first_world pathname storage = record {
  app = record {
    store = initial_state;
    storage = storage;
    toasts = [];
    invalidated = [];
    requests = [];
  };
  under_way = [];
  pathname = pathname;
  mobile_menu_open = false;
  theme = initial_theme (codes "karadul-theme") system storage;
  nodes_page = first_nodes_page;
  peers_page = first_peers_page;
  tab = auth_keys;
  settings_page = first_settings_page (get_admin_token storage);
  effects = unmounted;
}

-- The frame has its location, its menu and its theme; the storage is the shared one.
abbrev pub shell_of : World → ShellState
shell_of w = record {
  pathname = w.pathname;
  mobile_menu_open = w.mobile_menu_open;
  theme = w.theme;
  storage = w.app.storage;
}

abbrev pub with_shell : ShellState → World → World
with_shell s w = record w {
  pathname = s.pathname;
  mobile_menu_open = s.mobile_menu_open;
  theme = s.theme;
  app = record w.app { storage = s.storage };
}

abbrev pub with_app : (App → App) → World → World
with_app f w = record w { app = f w.app }

pub at_dashboard_move : Queries → World → World
unfolding loading_effect
at_dashboard_move q = with_app (λ (app : App). record app { store = loading_effect q app.store })

pub render_settings_move : Option ServerConfig → Option AclReply → World → World
unfolding commit
render_settings_move config reply w =
    let (ran, effects, page) = commit config reply (w.effects, w.settings_page) in
    record w { effects = effects; settings_page = page }

pub at_peers_move : PeersEvent → World → World
unfolding peers_update
at_peers_move e w = record w { peers_page = peers_update e w.peers_page }

pub at_topology_move : Option (List Node) → TopologyEvent → World → World
unfolding topology_update
at_topology_move known e =
    with_app (λ (app : App). record app { store = topology_update known e app.store })

-- The reply of the poll at the index, if there is one, which is then no longer under way.
pub arrived : Coordinator → Reply → Text → ℕ → Option Poll → World → World
unfolding arrive_poll
arrived c reply time i none w = w
arrived c reply time i (some poll) w = record w {
  app = arrive_poll c reply time poll w.app;
  under_way = erase_idx w.under_way i;
}

pub arrive : Coordinator → Reply → Text → ℕ → World → World
unfolding arrived
arrive c reply time i w = arrived c reply time i (get_elem? w.under_way i) w

module _ (match : Text → Text → Bool) (r : Runner) where
  -- A page that the location leaves is unmounted, and its local state is gone.
  pub shell_move : Text → ShellEvent → World → World
  unfolding shell_update mount_pages page_of
  shell_move back e w =
      let moved = with_shell (shell_update back e (shell_of w)) w in
      if same_page (page_of match w.pathname) (page_of match moved.pathname)
      then moved
      else mount_pages moved

  -- Only the page of the location is there to have events and effects.
  pub on_page : Page → (World → World) → World → World
  unfolding page_of
  on_page page f w = if same_page (page_of match w.pathname) page then f w else w

  pub at_nodes_move : Coordinator → NodesEvent → World → World
  unfolding nodes_update
  at_nodes_move c e w =
      let result = nodes_update r c.serve c.parse e (w.nodes_page, w.app) in
      record w { nodes_page = result.0; app = result.1 }

  pub at_settings_move : Coordinator → SettingsEvent → World → World
  unfolding settings_update
  at_settings_move c e w =
      let s : SettingsState = record { tab = w.tab; page = w.settings_page; app = w.app } in
      let after = settings_update r c.serve c.parse c.parse_key e s in
      record w { tab = after.tab; settings_page = after.page; app = after.app }

  -- One move of the dashboard.
  unfoldable pub step : World → Move → World
  unfolding send_poll arrive shell_move on_page at_dashboard_move render_settings_move at_nodes_move
      at_peers_move at_topology_move at_settings_move
  step w (sends poll) = record w {
    app = send_poll poll w.app;
    under_way = w.under_way ++ poll ∷ [];
  }
  step w (arrives c reply time i) = arrive c reply time i w
  step w (message payload) =
      with_app (λ (app : App). record app { store = on_message payload app.store }) w
  step w (at_shell back e) = shell_move back e w
  step w (at_dashboard q) = on_page dashboard (at_dashboard_move q) w
  step w (render_settings config reply) = on_page settings (render_settings_move config reply) w
  step w (at_nodes c e) = on_page nodes (at_nodes_move c e) w
  step w (at_peers e) = on_page peers (at_peers_move e) w
  step w (at_topology known e) = on_page topology (at_topology_move known e) w
  step w (at_settings c e) = on_page settings (at_settings_move c e) w

  -- A session: the moves in their order.
  unfoldable pub run : World → List Move → World
  unfolding step
  run w moves = foldl step w moves
