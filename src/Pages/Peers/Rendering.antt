-- ===== src/Pages/Peers/Rendering.antt =====
-- What the page of the peers (web/src/pages/peers.tsx) renders, and what its controls do.
use karadul.Pages.Peers.Cards.{
  peers_title, peers_toolbar, peers_cards, peers_controls, PeersPage, PeersEvent, refetch,
  close_dialog, search, view_details,
}
use karadul.Base.{
  ℕ, zero, suc, ◌-◌, Bool, true, false, Option, none, some, List, [], ◌∷◌, ◌++◌, leb, if◌then◌else◌,
  Text, codes, show_number,
}
use karadul.Store.{Peer}
use karadul.Pages.Badges.{connection_badge}
use karadul.Format.{format_bytes, format_duration}
use karadul.Pages.View.{
  Platform, Query, Item, caption, badge, skeleton, button, menu, flat_map, repeat, captions,
  error_alert, empty_state, or_text,
}
use karadul.Pages.Peers.{Filter, all_peers, active_only, inactive_only, filtered_peers}

abbrev pub peers_columns : List (Item PeersEvent)
peers_columns = captions (
    codes "Hostname"
    ∷ codes "Virtual IP"
    ∷ codes "State"
    ∷ codes "Endpoint"
    ∷ codes "Latency"
    ∷ codes "Data (RX/TX)"
    ∷ codes "Last Handshake"
    ∷ []
    ∷ [])

-- `PeerSkeleton`
abbrev pub peer_skeleton : List (Item PeersEvent)
peer_skeleton = repeat 8 (skeleton ∷ [])

-- A latency of 0 is shown as none.
abbrev pub latency_text : Option ℕ → Text
latency_text none = codes "N/A"
latency_text (some zero) = codes "N/A"
latency_text (some (suc ms)) = show_number (suc ms) ++ codes "ms"

-- What an empty list says.
abbrev pub no_peers_text : Text → Filter → Text
no_peers_text (c ∷ query) value =
    codes "No peers match your search criteria. Try a different query."
no_peers_text [] active_only =
    codes "No active peer connections. Peers will appear here when they connect."
no_peers_text [] inactive_only = codes "No inactive peers."
no_peers_text [] all_peers = codes "Your mesh network doesn't have any peers yet."

abbrev pub clear_search : Text → Option (Text × PeersEvent)
clear_search [] = none
clear_search (c ∷ query) = some (codes "Clear Search", search [])

module _ (js : Platform) where
  open js use {to_lower_case, print_time, time_of, now, log_ratio, to_tenths}

  -- `formatDuration(Date.now() - …)`; a time to come gives a negative number of milliseconds.
  abbrev pub elapsed_text : ℕ → Text
  elapsed_text time =
      if leb time now
      then format_duration to_tenths (now - time)
      else codes "-" ++ show_number (time - now) ++ codes "ms"

  abbrev pub handshake_text : Option Text → Text
  handshake_text none = codes "Never"
  handshake_text (some []) = codes "Never"
  handshake_text (some (c ∷ time)) = elapsed_text (time_of (c ∷ time)) ++ codes " ago"

  -- The row of a peer.
  abbrev pub peer_row : Peer → List (Item PeersEvent)
  peer_row peer =
      caption peer.hostname
      ∷ caption peer.virtual_ip
      ∷ badge (connection_badge peer.state).text
      ∷ caption (or_text peer.endpoint (codes "N/A"))
      ∷ caption (latency_text peer.latency)
      ∷ caption (codes "↓ " ++ format_bytes log_ratio peer.rx_bytes 2)
      ∷ caption (codes "↑ " ++ format_bytes log_ratio peer.tx_bytes 2)
      ∷ caption (handshake_text peer.last_handshake)
      ∷ menu (codes "MoreHorizontal") false ((codes "View Details", view_details peer) ∷ [])
      ∷ []

  -- The list, in its three states. `filtered` is `filteredPeers`.
  abbrev pub peers_table : Bool → Text → Filter → Option (List Peer) → List (Item PeersEvent)
  peers_table true query value filtered = peers_columns ++ repeat 5 peer_skeleton
  peers_table false query value (some []) =
      empty_state (codes "No peers found") (no_peers_text query value) (clear_search query)
  peers_table false query value none = peers_columns
  peers_table false query value (some (peer ∷ peers)) =
      peers_columns ++ flat_map peer_row (peer ∷ peers)

  abbrev pub full_time_text : Option Text → Text
  full_time_text none = codes "Never"
  full_time_text (some []) = codes "Never"
  full_time_text (some (c ∷ time)) = print_time (c ∷ time)

  -- The dialog with the details of a peer. Its cross and the keys that close it are one button.
  abbrev pub peer_dialog : Option Peer → List (Item PeersEvent)
  peer_dialog none = []
  peer_dialog (some peer) =
      caption peer.hostname
      ∷ caption (codes "Virtual IP")
      ∷ caption peer.virtual_ip
      ∷ caption (codes "State")
      ∷ badge (connection_badge peer.state).text
      ∷ caption (codes "Endpoint")
      ∷ caption (or_text peer.endpoint (codes "N/A"))
      ∷ caption (codes "Latency")
      ∷ caption (latency_text peer.latency)
      ∷ caption (codes "Received")
      ∷ caption (format_bytes log_ratio peer.rx_bytes 2)
      ∷ caption (codes "Sent")
      ∷ caption (format_bytes log_ratio peer.tx_bytes 2)
      ∷ caption (codes "Last Handshake")
      ∷ caption (full_time_text peer.last_handshake)
      ∷ button (codes "Close") false close_dialog
      ∷ []

  abbrev pub found : Filter → Text → Option (List Peer) → Option (List Peer)
  unfolding filtered_peers
  found value query none = none
  found value query (some peers) = some (filtered_peers to_lower_case value query peers)

  -- `PeersPage` without an error.
  unfoldable pub peers_content : Query (List Peer) → PeersPage → List (Item PeersEvent)
  unfolding found
  peers_content query page =
      peers_toolbar query
      ++ (peers_cards query
          ++ (peers_controls page.search_query
              ++ (peers_table query.is_loading page.search_query page.filter_value
                    (found page.filter_value page.search_query query.data_)
                  ++ peer_dialog page.selected_peer)))

  -- `PeersPage`
  unfoldable pub peers_page : Query (List Peer) → PeersPage → List (Item PeersEvent)
  unfolding peers_content
  peers_page query page = elim query.error [
    | some message ↦
        peers_title ++ error_alert (codes "Failed to load peers") message (some refetch)
    | none ↦ peers_content query page
  ]
