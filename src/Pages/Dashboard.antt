-- ===== src/Pages/Dashboard.antt =====
-- web/src/pages/dashboard.tsx: what the page shows of the three queries and of the store.
pub mod Offers
use karadul.Base.{
  ℕ, ◌+◌, ◌*◌, ◌/◌, ◌%◌, ◌≤◌, ◌<◌, min, ◌≡◌, refl, Bool, true, false, ◌||◌, Option, none, some,
  List, [], ◌∷◌, ◌++◌, arith, if◌then◌else◌, length, filter, length-filter_le, Text, codes,
  show_number,
}
use karadul.Store.{
  Node, NodeStatus, online, offline, pending, Peer, SystemStats, TrafficPoint, KaradulState, act,
  set_is_loading,
}
use karadul.Format.{format_bytes, show_fixed, show_tenths}
use karadul.Pages.View.{
  Platform, Query, Item, caption, skeleton, bar, button, repeat, captions, error_alert, list_of,
}
use karadul.Pages.Peers.{is_active, active_peers}

pub record Queries : Type 0 where
  pub stats : Query SystemStats
  pub nodes : Query (List Node)
  pub peers : Query (List Peer)

abbrev pub is_loading : Queries → Bool
is_loading q = q.stats.is_loading || q.nodes.is_loading || q.peers.is_loading

-- The effect that hands the flag to the store.
unfoldable pub loading_effect : Queries → KaradulState → KaradulState
loading_effect q s = act s (set_is_loading (is_loading q))

abbrev or_else : Option Text → Option Text → Option Text
or_else none other = other
or_else (some message) other = some message

abbrev pub error_of : Queries → Option Text
error_of q = or_else (or_else q.stats.error q.nodes.error) q.peers.error

abbrev pub is_online : NodeStatus → Bool
is_online online = true
is_online offline = false
is_online pending = false

abbrev pub online_nodes : Queries → ℕ
online_nodes q = length (filter (λ (n : Node). is_online n.status) (list_of q.nodes.data_))

abbrev pub connected_peers : Queries → ℕ
unfolding active_peers
connected_peers q = active_peers (list_of q.peers.data_)

abbrev stat : (SystemStats → ℕ) → Option SystemStats → ℕ
stat field none = 0
stat field (some stats) = field stats

-- `Math.floor(uptime / 3600)`h `Math.floor((uptime % 3600) / 60)`m
unfoldable pub uptime_text : ℕ → Text
uptime_text uptime =
    show_number (uptime / 3600) ++ codes "h " ++ show_number (uptime % 3600 / 60) ++ codes "m"

-- Every control of the page fetches all three queries again.
pub data DashboardEvent : Type 0 where
  refetch_all : DashboardEvent

abbrev pub dashboard_title : List (Item DashboardEvent)
dashboard_title = captions (codes "Dashboard" ∷ codes "Overview of your Karadul mesh network" ∷ [])

-- A card with its title, and what it has once the queries are loaded.
abbrev card : Bool → Text → List Text → List (Item DashboardEvent)
card loading title texts = caption title ∷ (if loading then skeleton ∷ [] else captions texts)

abbrev pub nodes_card : Queries → List (Item DashboardEvent)
nodes_card q = card (is_loading q) (codes "Total Nodes") (
    show_number (length (list_of q.nodes.data_))
    ∷ (show_number (online_nodes q) ++ codes " online")
    ∷ [])

abbrev pub peers_card : Queries → List (Item DashboardEvent)
unfolding connected_peers
peers_card q = card (is_loading q) (codes "Connected Peers") (
    show_number (connected_peers q)
    ∷ (codes "of " ++ show_number (length (list_of q.peers.data_)) ++ codes " total")
    ∷ [])

-- The points of the chart, each with its time and the two values that are drawn over it.
abbrev pub chart_items : List TrafficPoint → List (Item DashboardEvent)
chart_items [] = []
chart_items (point ∷ points) =
    caption point.time
    ∷ caption (show_number point.rx)
    ∷ caption (show_number point.tx)
    ∷ chart_items points

abbrev pub traffic_card : Queries → List TrafficPoint → List (Item DashboardEvent)
traffic_card q history =
    captions (codes "Network Traffic" ∷ codes "Data transfer over the last 24 hours" ∷ [])
    ++ (if is_loading q then skeleton ∷ [] else chart_items history)

module _ (js : Platform) where
  open js use {log_ratio, to_tenths}

  abbrev bytes_text : (SystemStats → ℕ) → Option SystemStats → Text
  bytes_text field stats = format_bytes log_ratio (stat field stats) 2

  abbrev pub received_card : Queries → List (Item DashboardEvent)
  received_card q =
      card (is_loading q) (codes "Data Received")
        (bytes_text SystemStats.total_rx q.stats.data_ ∷ codes "Total inbound" ∷ [])

  abbrev pub sent_card : Queries → List (Item DashboardEvent)
  sent_card q =
      card (is_loading q) (codes "Data Sent")
        (bytes_text SystemStats.total_tx q.stats.data_ ∷ codes "Total outbound" ∷ [])

  -- `stats?.cpuUsage?.toFixed(1) || 0`, from thousandths.
  abbrev pub cpu_text : Option SystemStats → Text
  cpu_text none = codes "0%"
  cpu_text (some stats) = show_tenths (to_tenths stats.cpu_usage 1000) ++ codes "%"

  -- The width of the bar, cut at 100 per cent.
  abbrev pub cpu_width : Option SystemStats → Text
  cpu_width stats = show_fixed 3 (min (stat SystemStats.cpu_usage stats) 100000) ++ codes "%"

  abbrev pub status_card : Queries → List (Item DashboardEvent)
  status_card q =
      let stats = q.stats.data_ in
      captions (codes "System Status" ∷ codes "Current system resource usage" ∷ [])
      ++ (if is_loading q
          then repeat 4 (repeat 3 (skeleton ∷ []))
          else caption (codes "CPU Usage")
            ∷ caption (cpu_text stats)
            ∷ bar (cpu_width stats)
            ∷ caption (codes "Memory Usage")
            ∷ caption (bytes_text SystemStats.memory_usage stats)
            ∷ caption (codes "Uptime")
            ∷ caption (uptime_text (stat SystemStats.uptime stats))
            ∷ caption (codes "Goroutines")
            ∷ caption (show_number (stat SystemStats.goroutines stats))
            ∷ [])

  -- The page without an error.
  abbrev pub dashboard_content : Queries → List TrafficPoint → List (Item DashboardEvent)
  unfolding peers_card
  dashboard_content q history =
      dashboard_title
      ++ button (codes "RefreshCw") (is_loading q) refetch_all ∷ nodes_card q
      ++ (peers_card q
          ++ (received_card q ++ (sent_card q ++ (traffic_card q history ++ status_card q))))

  -- `DashboardPage`
  unfoldable pub dashboard_page : Queries → List TrafficPoint → List (Item DashboardEvent)
  unfolding dashboard_content
  dashboard_page q history = elim (error_of q) [
    | some message ↦
        dashboard_title ++ error_alert (codes "Failed to load dashboard") message (some refetch_all)
    | none ↦ dashboard_content q history
  ]

-- No more nodes are shown as online, and no more peers as connected, than there are of them in all, and
-- the uptime is shown in whole minutes with less than sixty of them beside the hours, no minute lost.
pub figures_lem :
    (q : Queries) (uptime : ℕ)
    → (online_nodes q ≤ length (list_of q.nodes.data_))
      × (connected_peers q ≤ length (list_of q.peers.data_))
      × ((hours : ℕ) × (minutes : ℕ) × (uptime_text uptime
            ≡ show_number hours ++ codes "h " ++ show_number minutes ++ codes "m")
          × (minutes < 60)
          × (60 * (60 * hours + minutes) ≤ uptime)
          × (uptime < 60 * (60 * hours + minutes) + 60))
unfolding uptime_text active_peers
figures_lem q uptime = (
  length-filter_le (λ (n : Node). is_online n.status) (list_of q.nodes.data_),
  length-filter_le (λ (p : Peer). is_active p.state) (list_of q.peers.data_),
  (uptime / 3600, uptime % 3600 / 60, refl, omega arith, omega arith, omega arith),
)
