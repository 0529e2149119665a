-- ===== src/Session/Loaded.antt =====
-- Sessions of the dashboard from the moment it is loaded (web/src/App.tsx): what the store has of the mesh.
use karadul.Base.{◌≡◌, ap, ◌∙◌, Bool, none, List, [], arith, Text}
use karadul.Storage.{Storage}
use karadul.Store.{initial_state, max_traffic_history}
use karadul.Store.History.{take_last}
use karadul.Api.Mutations.Runner.{Runner}
use karadul.Session
use karadul.Session.{Move, first_world}
use karadul.Session.News.{
  all_heard, last_of, nodes_in, peers_in, topology_in, stats_in, points_in, Known, known,
  foldl-learn-IsNewest,
}
use karadul.Session.Learning.{run-learn}

module _ (match : Text → Text → Bool) (r : Runner) where
  -- Whatever happens after the dashboard is loaded, the store has the nodes, the peers, the
  -- topology and the statistics that the messages of the WebSocket and the replies of the polls
  -- under way brought last, and those of the first state where none came. A message brings what
  -- it carries; a reply brings the value that its body parses to if the response is `ok`, and
  -- nothing otherwise. The chart has the last 30 of the points that the polls of the statistics
  -- brought, each with what the counters have gained since the statistics that the poll was sent
  -- with, and nothing where they fell.
  pub loaded-run :
      (pathname : Text) (storage : Storage) (moves : List Move)
      → let after = (Session.run match r (first_world pathname storage) moves).app.store in
        let news = all_heard [] moves in
        (after.nodes ≡ last_of nodes_in [] news)
        × (after.peers ≡ last_of peers_in [] news)
        × (after.topology ≡ last_of topology_in (record { nodes = []; connections = [] }) news)
        × (after.stats ≡ last_of stats_in none news)
        × (after.traffic_history ≡ take_last max_traffic_history (points_in news))
  unfolding first_world
  loaded-run pathname storage moves =
      let e = run-learn match r moves (first_world pathname storage) (omega arith) in
      let (last_nodes, last_peers, last_topology, last_stats, last_points) =
        foldl-learn-IsNewest (all_heard [] moves) (known initial_state) (omega arith) in
      (
        ap Known.nodes e ∙ last_nodes,
        ap Known.peers e ∙ last_peers,
        ap Known.topology e ∙ last_topology,
        ap Known.stats e ∙ last_stats,
        ap Known.traffic_history e ∙ last_points,
      )
