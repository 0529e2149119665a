-- ===== src/Examples/Requests.antt =====
-- Requests, polls and mutations.
use karadul.Base.{
  ◌≡◌, refl, true, none, some, List, [], ◌∷◌, ◌++◌, arith, if◌then◌else◌, Text, codes, starts_with,
  show_number,
}
use karadul.Store.{Node, SystemStats, set_nodes, set_peers, set_topology}
use karadul.Api.{response, Outcome, ok, err, no_options, make_request, set_admin_token}
use karadul.Api.Token.{authorization, make_request_lem}
use karadul.Api.Duration.{to_go_duration}
use karadul.Api.Queries.{
  Settles, stats_actions, nodes_query, peers_query, topology_query, stats_query, queries-Settles,
}
use karadul.Api.Queries.Traffic.{poll_actions, sum_rx, sum_tx, last_stats, sum-poll_actions}
use karadul.Store.History.{points_added}
use karadul.Api.Mutations.{
  delete_options, rules_options, delete_node, create_auth_key, delete_auth_key, update_acl,
  update_config, config_options, key_options, expiry, nodes_key, auth_keys_key, acl_key, config_key,
}
use karadul.Api.Mutations.Bodies.{sent_rules, sent_config, sent_expiry, bodies_lem}
use karadul.Api.Mutations.Empty.{failed, empty_replies-fail}
use karadul.Api.Mutations.Announce.{Announces, mutations-Announces}
use karadul.Examples.Data.{
  app, config, laptop, stats_with, web_rule, runner, silent, no_json, one_key,
}

make_request_lem_example :
    let request =
      make_request (codes "/v1/admin/nodes") no_options (set_admin_token (codes "secret") []) in
    (request.url ≡ codes "/api" ++ codes "/v1/admin/nodes")
    × (request.body ≡ none)
    × (request.headers
        ≡ (codes "Content-Type", codes "application/json")
          ∷ (if starts_with (codes "/v1/admin/nodes") (codes "/v1/admin")
              then authorization (codes "secret")
              else []))
make_request_lem_example = make_request_lem (codes "/v1/admin/nodes") no_options (codes "secret") []

to_go_duration_test : to_go_duration (codes "07d") ≡ codes "168h"
unfolding to_go_duration show_number
to_go_duration_test = refl

abbrev nodes_parser : Text → Outcome (List Node)
nodes_parser body = ok (laptop ∷ [])

queries-Settles_example :
    Settles silent nodes_parser
      (codes "/v1/admin/nodes")
      (λ nodes. set_nodes nodes ∷ [])
      app
      (nodes_query silent nodes_parser app)
    × Settles silent no_json
        (codes "/v1/peers")
        (λ peers. set_peers peers ∷ [])
        app
        (peers_query silent no_json app)
    × Settles silent no_json
        (codes "/v1/topology")
        (λ topology. set_topology topology ∷ [])
        app
        (topology_query silent no_json app)
    × Settles silent no_json
        (codes "/v1/status")
        (stats_actions none (codes "12:00"))
        app
        (stats_query silent no_json none (codes "12:00") app)
queries-Settles_example =
    queries-Settles silent nodes_parser no_json no_json no_json none (codes "12:00") app

sum-poll_actions_example :
    let rest : List (Text × SystemStats) =
      (codes "12:01", stats_with 150 20) ∷ (codes "12:02", stats_with 175 20) ∷ [] in
    (sum_rx (points_added (poll_actions none ((codes "12:00", stats_with 100 10) ∷ rest)))
      ≡ (last_stats (stats_with 100 10) rest).total_rx)
    × (sum_tx (points_added (poll_actions none ((codes "12:00", stats_with 100 10) ∷ rest)))
        ≡ (last_stats (stats_with 100 10) rest).total_tx)
sum-poll_actions_example =
    sum-poll_actions (codes "12:00") (stats_with 100 10)
      ((codes "12:01", stats_with 150 20) ∷ (codes "12:02", stats_with 175 20) ∷ [])
      (omega arith, omega arith, (omega arith, omega arith, tt))

silent_node :
    silent (make_request (codes "/v1/admin/nodes/" ++ codes "n1") delete_options app.storage)
    ≡ response true 204 []
unfolding make_request
silent_node = refl

silent_key :
    silent (make_request (codes "/v1/admin/auth-keys/" ++ codes "n1") delete_options app.storage)
    ≡ response true 204 []
unfolding make_request
silent_key = refl

silent_rules :
    silent (make_request (codes "/v1/admin/acl") (rules_options (web_rule ∷ [])) app.storage)
    ≡ response true 200 []
unfolding make_request
silent_rules = refl

-- The coordinator has deleted the node, and the user is told that it failed.
empty_replies-fail_example :
    let node_request = make_request (codes "/v1/admin/nodes/n1") delete_options app.storage in
    let key_request = make_request (codes "/v1/admin/auth-keys/n1") delete_options app.storage in
    let rules_request =
      make_request (codes "/v1/admin/acl") (rules_options (web_rule ∷ [])) app.storage in
    let message = codes "Unexpected end of JSON input" in
    (runner.mutate_async Text (Unit {0}) (delete_node silent no_json) (codes "n1") app
      ≡ (err message, failed node_request (codes "Failed to delete node: " ++ message) app))
    × (runner.mutate_async Text (Unit {0}) (delete_auth_key silent no_json) (codes "n1") app
        ≡ (err message, failed key_request (codes "Failed to delete auth key: " ++ message) app))
    × (runner.mutate_async (List _) (Unit {0}) (update_acl silent no_json) (web_rule ∷ []) app
        ≡ (err message, failed rules_request (codes "Failed to update ACL: " ++ message) app))
empty_replies-fail_example =
    empty_replies-fail runner silent no_json (codes "Unexpected end of JSON input") (codes "n1")
      (web_rule ∷ []) app refl silent_node silent_key silent_rules

mutations-Announces_example :
    Announces runner (delete_node silent no_json) nodes_key
    × Announces runner (create_auth_key silent one_key) auth_keys_key
    × Announces runner (delete_auth_key silent no_json) auth_keys_key
    × Announces runner (update_acl silent no_json) acl_key
    × Announces runner (update_config silent no_json) config_key
mutations-Announces_example = mutations-Announces runner silent no_json one_key

bodies_lem_example :
    (sent_rules
        (make_request (codes "/v1/admin/acl") (rules_options (web_rule ∷ [])) app.storage).body
      ≡ some (web_rule ∷ []))
    × (sent_config
          (make_request (codes "/v1/admin/config") (config_options config) app.storage).body
        ≡ some config)
    × (sent_expiry
          (make_request
            (codes "/v1/admin/auth-keys")
            (key_options (some (codes "7d")))
            app.storage).body
        ≡ some (expiry (some (codes "7d"))))
bodies_lem_example = bodies_lem app.storage (web_rule ∷ []) config (some (codes "7d"))
