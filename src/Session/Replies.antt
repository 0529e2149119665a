-- ===== src/Session/Replies.antt =====
-- What a message of web/src/lib/websocket.tsx and a reply of web/src/lib/api.ts make the store know of the
-- mesh.
use karadul.Base.{◌-◌, ◌≡◌, refl, ap, ℕ, true, false, none, some, List, [], ◌∷◌, foldl, Text}
use karadul.Store.{
  KaradulState, add_traffic_point, Action, act, run, set_nodes, set_peers, set_topology,
}
use karadul.Store.History.{traffic_history-add_traffic_point, IsBounded}
use karadul.Api.{Reply, rejected, response, Outcome, ok, err, App, read_reply}
use karadul.Api.Polls.{
  Coordinator, Poll, poll_nodes, poll_peers, poll_topology, poll_keys, poll_rules, poll_config,
  poll_stats, arrive_poll,
}
use karadul.Api.Queries.{settle, stats_actions}
use karadul.Socket.{
  Payload, nodes_message, peers_message, topology_message, stats_message, unknown_message,
  malformed, on_message,
}
use karadul.Session.News.{
  News, new_nodes, new_peers, new_topology, new_stats, new_point, told, parsed_value, brought,
  news_if, gained, replied, known, learn,
}

-- The messages and the replies, one by one.
pub message-learn :
    (payload : Payload) (s : KaradulState)
    → known (on_message payload s) ≡ foldl learn (known s) (told payload)
unfolding act
message-learn (nodes_message new) s = refl
message-learn (peers_message new) s = refl
message-learn (topology_message new) s = refl
message-learn (stats_message stats) s = refl
message-learn (unknown_message type) s = refl
message-learn malformed s = refl

-- The store after a reply, if its actions bring the news.
settle-learn :
    {A : Type 0} (actions : A → List Action) (news : A → List News) (parse : Text → Outcome A)
    (reply : Reply) (app : App)
    → ((value : A)
        → known (run app.store (actions value)) ≡ foldl learn (known app.store) (news value))
    → known (settle actions (read_reply parse reply, app)).1.store
      ≡ foldl learn (known app.store) (news_if news (brought parse reply))
unfolding settle read_reply
settle-learn actions news parse (rejected reason) app h = refl
settle-learn {A} actions news parse (response true status body) app h = outcome (parse body)
  where
    outcome :
        (o : Outcome A)
        → known (settle actions (o, app)).1.store
          ≡ foldl learn (known app.store) (news_if news (parsed_value o))
    outcome (ok value) = h value
    outcome (err reason) = refl
settle-learn actions news parse (response false status []) app h = refl
settle-learn actions news parse (response false status (c ∷ body)) app h = refl

known-add_traffic_point :
    (time : Text) (rx tx : ℕ) (s : KaradulState)
    → IsBounded s
    → known (add_traffic_point time rx tx s)
      ≡ learn (known s) (new_point (record { time = time; rx = rx; tx = tx }))
unfolding add_traffic_point
known-add_traffic_point time rx tx s h =
    ap (λ history. record (known s) { traffic_history = history })
      (traffic_history-add_traffic_point time rx tx s h)

pub reply-learn :
    (c : Coordinator) (reply : Reply) (time : Text) (poll : Poll) (app : App)
    → IsBounded app.store
    → known (arrive_poll c reply time poll app).store
      ≡ foldl learn (known app.store) (replied c reply time poll)
unfolding arrive_poll act
reply-learn c reply time poll_nodes app h =
    settle-learn (λ x. set_nodes x ∷ []) (λ v. new_nodes v ∷ []) c.parse_nodes reply app (λ v. refl)
reply-learn c reply time poll_peers app h =
    settle-learn (λ x. set_peers x ∷ []) (λ v. new_peers v ∷ []) c.parse_peers reply app (λ v. refl)
reply-learn c reply time poll_topology app h =
    settle-learn (λ x. set_topology x ∷ []) (λ v. new_topology v ∷ []) c.parse_topology reply app
      (λ v. refl)
reply-learn c reply time (poll_stats none) app h =
    settle-learn (stats_actions none time) (λ v. new_stats v ∷ new_point (gained none time v) ∷ [])
      c.parse_stats reply app
      (λ v.
        known-add_traffic_point time v.total_rx v.total_tx (record app.store { stats = some v }) h)
reply-learn c reply time (poll_stats (some prev)) app h =
    settle-learn (stats_actions (some prev) time)
      (λ v. new_stats v ∷ new_point (gained (some prev) time v) ∷ []) c.parse_stats reply app
      (λ v.
        known-add_traffic_point time (v.total_rx - prev.total_rx) (v.total_tx - prev.total_tx)
          (record app.store { stats = some v }) h)
reply-learn c reply time poll_keys app h = refl
reply-learn c reply time poll_rules app h = refl
reply-learn c reply time poll_config app h = refl
