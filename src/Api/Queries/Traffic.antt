-- ===== src/Api/Queries/Traffic.antt =====
-- The traffic chart over several polls of the statistics (web/src/lib/api.ts).
use karadul.Base.{ℕ, ◌+◌, ◌-◌, ◌≤◌, ◌≡◌, Option, none, some, List, [], ◌∷◌, ◌++◌, arith, Text}
use karadul.Store.{SystemStats, Action, set_stats, TrafficPoint}
use karadul.Store.History.{points_added}
use karadul.Api.Queries.{stats_actions}

-- The actions of successful polls in a row, each of which finds the statistics of the poll before.
abbrev pub poll_actions : Option SystemStats → List (Text × SystemStats) → List Action
poll_actions prev [] = []
poll_actions prev ((time, stats) ∷ rest) =
    stats_actions prev time stats ++ poll_actions (some stats) rest

abbrev pub sum_rx : List TrafficPoint → ℕ
sum_rx [] = 0
sum_rx (point ∷ points) = point.rx + sum_rx points

abbrev pub sum_tx : List TrafficPoint → ℕ
sum_tx [] = 0
sum_tx (point ∷ points) = point.tx + sum_tx points

-- The counters never fall from one poll to the next.
abbrev pub Rises : SystemStats → List (Text × SystemStats) → Type 0
Rises stats [] = Unit
Rises stats ((time, next) ∷ rest) =
    (stats.total_rx ≤ next.total_rx) × (stats.total_tx ≤ next.total_tx) × Rises next rest

abbrev pub last_stats : SystemStats → List (Text × SystemStats) → SystemStats
last_stats stats [] = stats
last_stats stats ((time, next) ∷ rest) = last_stats next rest

sum-polls :
    (stats : SystemStats) (rest : List (Text × SystemStats))
    → Rises stats rest
    → (stats.total_rx + sum_rx (points_added (poll_actions (some stats) rest))
        ≡ (last_stats stats rest).total_rx)
      × (stats.total_tx + sum_tx (points_added (poll_actions (some stats) rest))
          ≡ (last_stats stats rest).total_tx)
sum-polls stats [] h = (omega arith, omega arith)
sum-polls stats ((time, next) ∷ rest) h =
    let ih = sum-polls next rest h.2 in (omega (arith, ih.0), omega (arith, ih.1))

-- While the coordinator's counters rise, the points that a row of polls adds to the chart sum up to
-- the last counters: every byte received or sent is drawn once.
pub sum-poll_actions :
    (time : Text) (stats : SystemStats) (rest : List (Text × SystemStats))
    → Rises stats rest
    → (sum_rx (points_added (poll_actions none ((time, stats) ∷ rest)))
        ≡ (last_stats stats rest).total_rx)
      × (sum_tx (points_added (poll_actions none ((time, stats) ∷ rest)))
          ≡ (last_stats stats rest).total_tx)
sum-poll_actions time stats rest h = sum-polls stats rest h

-- A message of the WebSocket between two polls sets the statistics and adds no point. The next poll
-- finds them as the last ones, so what came between the first poll and the message is never drawn.
pub message-misses :
    (first message second : SystemStats) (t u : Text)
    → Rises first ((t, message) ∷ (u, second) ∷ [])
    → let actions =
        stats_actions none t first ++ set_stats message ∷ stats_actions (some message) u second in
      (sum_rx (points_added actions) + (message.total_rx - first.total_rx) ≡ second.total_rx)
      × (sum_tx (points_added actions) + (message.total_tx - first.total_tx) ≡ second.total_tx)
message-misses first message second t u h = (omega arith, omega arith)
