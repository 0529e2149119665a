-- ===== src/Examples/Views.antt =====
-- What the pages and the frame offer, at concrete states.
use karadul.Base.{
  ◌↔◌, ◌⊎◌, inl, ℕ, ◌/◌, ◌≡◌, refl, ◌≢◌, inl, true, false, none, some, List, [], ◌∷◌, ◌++◌,
  get_elem?, codes, text_eq, to_lower_case,
}
use karadul.Store.{Node, Peer, PeerState, direct, idle}
use karadul.Api.{make_request}
use karadul.Api.Mutations.{delete_options}
use karadul.Pages.View.{Platform, Query, OfferedIn, OfferedAt-OfferedIn}
use karadul.Pages.Dashboard.{Queries, is_loading, error_of, refetch_all, dashboard_page}
use karadul.Pages.Dashboard.Offers.{refetch_all-OfferedIn}
use karadul.Pages.Nodes.{NodesPage}
use karadul.Pages.Nodes.Rendering.{nodes_page, close_dialog, search, ask_delete, confirm_delete}
use karadul.Pages.Nodes.Offers.{nodes_update, confirm_delete-OfferedIn}
use karadul.Pages.Nodes.Liveness.{Reachable, deletion_possible}
use karadul.Pages.Peers.{filtered_peers, active_only}
use karadul.Pages.Peers.Rendering.{peers_page}
use karadul.Pages.Peers.Cards.{PeersPage, view_details, cards_texts}
use karadul.Pages.Peers.Offers.{view_details-OfferedIn}
use karadul.Pages.Settings.Events.{SettingsState, acl, save_acl}
use karadul.Pages.Settings.Rendering.{SettingsQueries, settings_page}
use karadul.Pages.Settings.RulesTab.{rules_tab}
use karadul.Pages.Settings.Saving.{save_acl-OfferedIn}
use karadul.Shell.{not_found, page_of, ShellState, follow_and_close, shell_update, layout}
use karadul.Shell.Links.{IsRouter, layout-found}
use karadul.Examples.Data.{stats_with, laptop, server, page, app, runner, silent, no_json}

-- Whole microseconds and quotients stand for the arithmetic on doubles.
abbrev js : Platform
js = record {
  to_lower_case = to_lower_case;
  format_date = λ time. time;
  print_time = λ time. time;
  time_of = λ time. 1000;
  now = 61000;
  log_ratio = λ n. 0;
  to_tenths = λ n d. n / d;
}

abbrev nodes_query : Query (List Node)
nodes_query = record { data_ = some (laptop ∷ server ∷ []); is_loading = false; error = none }

abbrev searching : NodesPage
searching = record { node_to_delete = some laptop; search_query = codes "zz" }

deletion_possible_example :
    let can = Reachable js.to_lower_case js.format_date js.log_ratio nodes_query in
    let update = nodes_update runner silent no_json in
    let closed = update close_dialog (searching, app) in
    let cleared = update (search []) closed in
    let asked = update (ask_delete server) cleared in
    ((searching.node_to_delete ≡ none) ⊎ can (searching, app) close_dialog)
    × (closed ≡ (record searching { node_to_delete = none }, app))
    × can closed (search [])
    × can cleared (ask_delete server)
    × (asked.0.node_to_delete ≡ some server)
    × can asked confirm_delete
    × ((update confirm_delete asked).1.requests
        ≡ app.requests
          ++ make_request (codes "/v1/admin/nodes/" ++ server.id) delete_options app.storage ∷ [])
deletion_possible_example =
    deletion_possible js.to_lower_case js.format_date js.log_ratio nodes_query runner silent no_json
      (laptop ∷ server ∷ []) 1 server searching app refl refl refl refl refl

abbrev asking : NodesPage
asking = record { node_to_delete = some server; search_query = [] }

asking-confirm_delete :
    OfferedIn
      (nodes_page js.to_lower_case js.format_date js.log_ratio nodes_query none false asking)
      confirm_delete
unfolding nodes_page
asking-confirm_delete =
    OfferedAt-OfferedIn
      (nodes_page js.to_lower_case js.format_date js.log_ratio nodes_query none false asking) 32
      confirm_delete (refl, refl)

confirm_delete-OfferedIn_example :
    (nodes_query.error ≡ none)
    × (false ≡ false)
    × ((node : Node) × (asking.node_to_delete ≡ some node))
confirm_delete-OfferedIn_example =
    confirm_delete-OfferedIn js.to_lower_case js.format_date js.log_ratio nodes_query none false
      asking asking-confirm_delete

abbrev phone : PeerState → Peer
phone state = record {
  id = codes "p";
  hostname = codes "Phone";
  virtual_ip = codes "100.64.0.9";
  state = state;
  endpoint = none;
  last_handshake = some (codes "2024-01-01");
  rx_bytes = 0;
  tx_bytes = 0;
  latency = some 0;
}

abbrev peers_query : Query (List Peer)
peers_query = record {
  data_ = some (phone idle ∷ phone direct ∷ []);
  is_loading = false;
  error = none;
}

abbrev active_peers_page : PeersPage
active_peers_page = record { filter_value = active_only; search_query = []; selected_peer = none }

phone-view_details :
    OfferedIn (peers_page js peers_query active_peers_page) (view_details (phone direct))
unfolding peers_page cards_texts
phone-view_details =
    OfferedAt-OfferedIn (peers_page js peers_query active_peers_page) 34
      (view_details (phone direct)) (refl, inl refl)

view_details-OfferedIn_example :
    (peers_query.error ≡ none)
    × (peers_query.is_loading ≡ false)
    × ((peers : List Peer) × (peers_query.data_ ≡ some peers)
        × ((i : ℕ) × (get_elem? (filtered_peers js.to_lower_case active_only [] peers) i
              ≡ some (phone direct))))
view_details-OfferedIn_example =
    view_details-OfferedIn js peers_query active_peers_page (phone direct) phone-view_details

abbrev settings_queries : SettingsQueries
settings_queries = record {
  keys = record { data_ = some []; is_loading = false; error = none };
  acl_error = none;
  acl_loading = false;
  config_loading = false;
  creating_key = false;
  deleting_key = false;
  saving_acl = false;
  saving_config = false;
}

abbrev editing : SettingsState
editing = record { tab = acl; page = page; app = app }

editing-save_acl : OfferedIn (settings_page js settings_queries editing) save_acl
unfolding settings_page rules_tab
editing-save_acl =
    OfferedAt-OfferedIn (settings_page js settings_queries editing) 25 save_acl (refl, refl)

save_acl-OfferedIn_example :
    (editing.tab ≡ acl) × (settings_queries.saving_acl ≡ false) × (editing.page.acl_rules ≢ [])
save_acl-OfferedIn_example = save_acl-OfferedIn js settings_queries editing editing-save_acl

-- A router that compares the spelling.
exact-IsRouter : IsRouter text_eq
exact-IsRouter = record { static = λ s t hs ht. refl }

abbrev at_nodes : ShellState
at_nodes = record {
  pathname = codes "/nodes";
  mobile_menu_open = true;
  theme = codes "dark";
  storage = [];
}

nodes_ne_not_found : page_of text_eq (codes "/nodes") ≢ not_found
unfolding page_of
nodes_ne_not_found e = cc

peers-offered : OfferedIn (layout true at_nodes) (follow_and_close (codes "/peers"))
unfolding layout
peers-offered =
    OfferedAt-OfferedIn (layout true at_nodes) 12 (follow_and_close (codes "/peers")) refl

layout-found_example :
    page_of text_eq (shell_update [] (follow_and_close (codes "/peers")) at_nodes).pathname
    ≢ not_found
layout-found_example =
    layout-found text_eq exact-IsRouter at_nodes [] (follow_and_close (codes "/peers")) true
      nodes_ne_not_found peers-offered

abbrev loaded : Queries
loaded = record {
  stats = record { data_ = some (stats_with 1536 10); is_loading = false; error = none };
  nodes = nodes_query;
  peers = peers_query;
}

refetch_all-OfferedIn_example :
    OfferedIn (dashboard_page js loaded []) refetch_all
    ↔ ((error_of loaded ≢ none) ⊎ ((error_of loaded ≡ none) × (is_loading loaded ≡ false)))
refetch_all-OfferedIn_example = refetch_all-OfferedIn js loaded []
