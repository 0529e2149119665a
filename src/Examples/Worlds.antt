-- ===== src/Examples/Worlds.antt =====
-- Sessions of the whole dashboard.
use karadul.Base.{
  ◌≡◌, refl, ◌≢◌, ◌⊎◌, true, false, none, some, List, [], ◌∷◌, ◌++◌, foldl, length, codes, text_eq,
}
use karadul.Storage.{get_item}
use karadul.Api.{response, ok, get_admin_token, read_reply}
use karadul.Api.Guarded.{Sent}
use karadul.Api.Mutations.{ServerConfig}
use karadul.Api.Queries.{AclReply}
use karadul.Socket.{nodes_message}
use karadul.Shell.{nodes, page_of, follow, choose_theme}
use karadul.Pages.Nodes.Rendering.{view_details, ask_delete, confirm_delete}
use karadul.Pages.Settings.Events.{
  SettingsEvent, SettingsState, general, edit, set_admin_token, add_rule, settings_update,
}
use karadul.Pages.Settings.{addr_field}
use karadul.Pages.Settings.Effects.{unmounted, commit, render, rendered_session}
use karadul.Pages.Settings.Syncing.{
  seen_of, taken, taken_rules, commit_lem, render-settled, rendered_session-foldl,
}
use karadul.Session
use karadul.Api.Polls.{Coordinator, poll_nodes, poll_peers}
use karadul.Session.{
  World, Move, sends, arrives, message, at_shell, at_nodes, at_settings, first_world, step,
}
use karadul.Store.{max_traffic_history}
use karadul.Store.History.{take_last}
use karadul.Session.News.{
  new_nodes, all_heard, last_of, nodes_in, peers_in, topology_in, stats_in, points_in,
}
use karadul.Session.Loaded.{loaded-run}
use karadul.Session.Choice.{details-kept}
use karadul.Session.Requests.{run-Sent}
use karadul.Session.Stored.{run-get_item}
use karadul.Session.Shown.{ShowsToken, run-ShowsToken}
use karadul.Session.Justified.{Deletes}
use karadul.Session.Deletions.{run-Deletes}
use karadul.Session.Late.{late-reply}
use karadul.Examples.Data.{
  laptop, server, app, page, config, web_rule, runner, silent, no_json, one_key,
}

abbrev coordinator : Coordinator
coordinator = record {
  serve = silent;
  parse = no_json;
  parse_nodes = λ body. ok (server ∷ []);
  parse_peers = no_json;
  parse_topology = no_json;
  parse_stats = no_json;
  parse_keys = no_json;
  parse_key = one_key;
  parse_rules = no_json;
  parse_config = no_json;
}

abbrev loaded : World
loaded = first_world (codes "/nodes") ((codes "karadul_admin_token", codes "secret") ∷ [])

loaded_page : page_of text_eq loaded.pathname ≡ nodes
unfolding first_world page_of
loaded_page = refl

loaded-ShowsToken : ShowsToken loaded
unfolding first_world get_admin_token
loaded-ShowsToken = refl

-- The user deletes the node of the details, and the poll brings the nodes that are left.
abbrev deletion : List Move
deletion =
    at_nodes coordinator (ask_delete laptop)
    ∷ at_nodes coordinator confirm_delete
    ∷ sends poll_nodes
    ∷ arrives coordinator (response true 200 (codes "[]")) (codes "12:00") 0
    ∷ []

details-kept_example :
    let after =
      (Session.run text_eq runner loaded
        (at_nodes coordinator (view_details laptop) ∷ deletion)).app.store in
    (after.selected_node ≡ some laptop)
    × (after.dark_mode ≡ loaded.app.store.dark_mode)
    × (after.is_connected ≡ loaded.app.store.is_connected)
details-kept_example =
    details-kept text_eq runner coordinator laptop deletion loaded loaded_page refl

-- After the deletion the user enters another token and chooses a theme.
abbrev long_session : List Move
long_session =
    at_nodes coordinator (view_details laptop) ∷ deletion
    ++ at_shell [] (follow (codes "/settings"))
      ∷ at_settings coordinator (set_admin_token (codes "other"))
      ∷ at_shell [] (choose_theme (codes "dark"))
      ∷ []

loaded-run_example :
    let after = (Session.run text_eq runner loaded long_session).app.store in
    let news = all_heard [] long_session in
    (after.nodes ≡ last_of nodes_in [] news)
    × (after.peers ≡ last_of peers_in [] news)
    × (after.topology ≡ last_of topology_in (record { nodes = []; connections = [] }) news)
    × (after.stats ≡ last_of stats_in none news)
    × (after.traffic_history ≡ take_last max_traffic_history (points_in news))
loaded-run_example =
    loaded-run text_eq runner (codes "/nodes") ((codes "karadul_admin_token", codes "secret") ∷ [])
      long_session

-- What this session hears: the reply to its poll of the nodes.
long_session-all_heard : all_heard [] long_session ≡ new_nodes (server ∷ []) ∷ []
long_session-all_heard = refl

run-Sent_example : Sent loaded.app (Session.run text_eq runner loaded long_session).app
run-Sent_example = run-Sent text_eq runner long_session loaded

loaded_closed : loaded.nodes_page.node_to_delete ≡ none
unfolding first_world
loaded_closed = refl

run-Deletes_example :
    Deletes (codes "n1" ∷ []) [] loaded.app (Session.run text_eq runner loaded long_session).app
run-Deletes_example = run-Deletes text_eq runner long_session loaded loaded_closed

run-get_item_example :
    get_item
      (codes "karadul_admin_token")
      (Session.run text_eq runner loaded
        (at_shell [] (choose_theme (codes "dark")) ∷ deletion)).app.storage
    ≡ get_item (codes "karadul_admin_token") loaded.app.storage
run-get_item_example =
    run-get_item text_eq runner (codes "karadul_admin_token")
      (at_shell [] (choose_theme (codes "dark")) ∷ deletion) loaded refl

run-ShowsToken_example : ShowsToken (Session.run text_eq runner loaded long_session)
run-ShowsToken_example = run-ShowsToken text_eq runner long_session loaded loaded-ShowsToken

polled : read_reply coordinator.parse_nodes (response true 200 (codes "[]")) ≡ ok (server ∷ [])
unfolding read_reply
polled = refl

late-reply_example :
    let asked = Session.run text_eq runner loaded (sends poll_nodes ∷ sends poll_peers ∷ []) in
    let told = step text_eq runner asked (message (nodes_message (laptop ∷ server ∷ []))) in
    let after = step text_eq runner told (
      arrives coordinator
        (response true 200 (codes "[]"))
        (codes "12:00")
        (length loaded.under_way)) in
    (told.app.store.nodes ≡ laptop ∷ server ∷ []) × (after.app.store.nodes ≡ server ∷ [])
late-reply_example =
    late-reply text_eq runner (sends poll_peers ∷ []) loaded coordinator
      (response true 200 (codes "[]")) (codes "12:00") (server ∷ []) (laptop ∷ server ∷ []) refl
      polled

-- The settings: another configuration comes while the rules are as they were.
abbrev rules_reply : AclReply
rules_reply = record { rules = web_rule ∷ [] }

abbrev other_config : ServerConfig
other_config = record config { log_level = some (codes "debug") }

commit_lem_example :
    let (ran, seen, after) =
      commit
        (some other_config)
        (some rules_reply)
        (seen_of (some config) (some rules_reply), page) in
    (seen ≡ seen_of (some other_config) (some rules_reply))
    × (after ≡ record page { config_form = after.config_form; acl_rules = after.acl_rules })
    × (((some other_config ≡ some config) × (after.config_form ≡ page.config_form))
        ⊎ ((some other_config ≢ some config)
            × (after.config_form ≡ taken (some other_config) page.config_form)))
    × (((some rules_reply ≡ some rules_reply) × (after.acl_rules ≡ page.acl_rules))
        ⊎ ((some rules_reply ≢ some rules_reply)
            × (after.acl_rules ≡ taken_rules (some rules_reply) page.acl_rules)))
commit_lem_example =
    commit_lem (some config) (some other_config) (some rules_reply) (some rules_reply) page

render-settled_example :
    let (ran, seen, after) = commit (some config) (some rules_reply) (unmounted, page) in
    (render 2 (some config) (some rules_reply) (unmounted, page) ≡ some (seen, after))
    × (commit (some config) (some rules_reply) (seen, after) ≡ (false, seen, after))
render-settled_example = render-settled 0 (some config) (some rules_reply) unmounted page

abbrev edits : List SettingsEvent
edits = edit (addr_field (codes ":9090")) ∷ add_rule ∷ []

abbrev editing : SettingsState
editing = record { tab = general; page = page; app = app }

rendered_session-foldl_example :
    rendered_session
      (settings_update runner silent no_json one_key)
      (some config)
      (some rules_reply)
      edits
      (seen_of (some config) (some rules_reply), editing)
    ≡ (
      seen_of (some config) (some rules_reply),
      foldl (λ t e. settings_update runner silent no_json one_key e t) editing edits,
    )
rendered_session-foldl_example =
    rendered_session-foldl runner silent no_json one_key (some config) (some rules_reply) edits
      editing
