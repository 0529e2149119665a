-- ===== src/Pages/Peers/Cards.antt =====
-- The state of the page of the peers (web/src/pages/peers.tsx), what its controls do, and what stands
-- above its list.
use karadul.Base.{
  ℕ, Bool, true, false, Option, none, some, List, [], ◌∷◌, ◌++◌, ◌==◌, if◌then◌else◌, length,
  filter, Text, codes, show_number,
}
use karadul.Store.{Peer, PeerState, discovered, connecting, direct, relayed, idle, expired}
use karadul.Pages.View.{Query, Item, skeleton, button, menu, input, repeat, captions, list_of}
use karadul.Pages.Peers.{Filter, all_peers, active_only, inactive_only, active_peers}

pub record PeersPage : Type 0 where
  pub filter_value : Filter
  pub search_query : Text
  pub selected_peer : Option Peer

pub data PeersEvent : Type 0 where
  refetch export_csv export_json close_dialog : PeersEvent
  search : Text → PeersEvent
  set_filter : Filter → PeersEvent
  view_details : Peer → PeersEvent

-- What an event does to the page. The exports download a file, and the query fetches again of itself.
unfoldable pub peers_update : PeersEvent → PeersPage → PeersPage
peers_update refetch page = page
peers_update export_csv page = page
peers_update export_json page = page
peers_update close_dialog page = record page { selected_peer = none }
peers_update (search query) page = record page { search_query = query }
peers_update (set_filter value) page = record page { filter_value = value }
peers_update (view_details peer) page = record page { selected_peer = some peer }

abbrev pub peers_title : List (Item PeersEvent)
peers_title = captions (codes "Peers" ∷ codes "Manage peer connections in your mesh network" ∷ [])

abbrev pub peers_toolbar : Query (List Peer) → List (Item PeersEvent)
peers_toolbar query =
    peers_title
    ++ menu (codes "Export") (length (list_of query.data_) == 0)
        ((codes "Export as CSV", export_csv) ∷ (codes "Export as JSON", export_json) ∷ [])
      ∷ button (codes "RefreshCw") query.is_loading refetch
      ∷ []

abbrev is_direct : PeerState → Bool
is_direct direct = true
is_direct discovered = false
is_direct connecting = false
is_direct relayed = false
is_direct idle = false
is_direct expired = false

abbrev is_relayed : PeerState → Bool
is_relayed relayed = true
is_relayed discovered = false
is_relayed connecting = false
is_relayed direct = false
is_relayed idle = false
is_relayed expired = false

-- How many peers are in a state.
abbrev pub direct_count : List Peer → ℕ
direct_count peers = length (filter (λ (p : Peer). is_direct p.state) peers)

abbrev pub relayed_count : List Peer → ℕ
relayed_count peers = length (filter (λ (p : Peer). is_relayed p.state) peers)

-- `StatCardSkeleton`
abbrev pub stat_card_skeleton : List (Item PeersEvent)
stat_card_skeleton = repeat 3 (skeleton ∷ [])

unfoldable pub cards_texts : List Peer → List Text
unfolding active_peers
cards_texts peers =
    codes "Total Peers"
    ∷ show_number (length peers)
    ∷ codes "Direct"
    ∷ show_number (direct_count peers)
    ∷ codes "Relayed"
    ∷ show_number (relayed_count peers)
    ∷ codes "Active"
    ∷ show_number (active_peers peers)
    ∷ []

-- The four cards above the list.
abbrev pub peers_cards : Query (List Peer) → List (Item PeersEvent)
peers_cards query =
    if query.is_loading
    then repeat 4 stat_card_skeleton
    else captions (cards_texts (list_of query.data_))

-- The field of the search and the tabs of the filter.
abbrev pub peers_controls : Text → List (Item PeersEvent)
peers_controls query =
    captions (codes "Peer Connections" ∷ codes "All peer connections in the network" ∷ [])
    ++ input (codes "Search peers...") query search
      ∷ button (codes "All") false (set_filter all_peers)
      ∷ button (codes "Active") false (set_filter active_only)
      ∷ button (codes "Inactive") false (set_filter inactive_only)
      ∷ []
