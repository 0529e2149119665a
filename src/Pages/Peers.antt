-- ===== src/Pages/Peers.antt =====
-- web/src/pages/peers.tsx: the filter over the peers, and how many of them are active.
pub mod Cards
pub mod Rendering
pub mod Offers
use karadul.Base.{
  ℕ, ◌+◌, ◌≡◌, refl, inl, inr, Bool, true, false, not, ◌&&◌, ◌||◌, List, [], ◌∷◌, arith, Bool-cases,
  length, filter, Text, includes, includes-empty,
}
use karadul.Store.{Peer, PeerState, discovered, connecting, direct, relayed, idle, expired}
use karadul.Pages.Search.{filter-all}

-- `["Direct", "Relayed"].includes(state)`
abbrev pub is_active : PeerState → Bool
is_active direct = true
is_active relayed = true
is_active discovered = false
is_active connecting = false
is_active idle = false
is_active expired = false

-- The values that the filter's menu has.
pub data Filter : Type 0 where
  all_peers active_only inactive_only : Filter

abbrev pub matches_filter : Filter → Peer → Bool
matches_filter all_peers peer = true
matches_filter active_only peer = is_active peer.state
matches_filter inactive_only peer = not (is_active peer.state)

-- `activePeers`
unfoldable pub active_peers : List Peer → ℕ
active_peers peers = length (filter (λ p. is_active p.state) peers)

-- `to_lower_case` is `String.prototype.toLowerCase`.
module _ (to_lower_case : Text → Text) where
  abbrev pub matches_search : Text → Peer → Bool
  matches_search query peer =
      includes (to_lower_case peer.hostname) (to_lower_case query) || includes peer.virtual_ip query

  -- `filteredPeers`
  unfoldable pub filtered_peers : Filter → Text → List Peer → List Peer
  filtered_peers filter_value query peers =
      filter (λ p. matches_filter filter_value p && matches_search query p) peers

  matches_search-empty : (peer : Peer) → matches_search [] peer ≡ true
  matches_search-empty peer = ground (arith, includes-empty peer.virtual_ip)

  length-filtered_peers :
      (query : Text) (peers : List Peer)
      → length (filtered_peers active_only query peers)
          + length (filtered_peers inactive_only query peers)
        ≡ length (filtered_peers all_peers query peers)
  unfolding filtered_peers
  length-filtered_peers query [] = refl
  length-filtered_peers query (peer ∷ peers) = elim (Bool-cases (is_active peer.state)) [
    | inl up ↦ ground (arith, length-filtered_peers query peers, up)
    | inr down ↦ ground (arith, length-filtered_peers query peers, down)
  ]

  length-filtered_peers_active :
      (peers : List Peer) → length (filtered_peers active_only [] peers) ≡ active_peers peers
  unfolding filtered_peers active_peers
  length-filtered_peers_active [] = refl
  length-filtered_peers_active (peer ∷ peers) =
      ground (arith, length-filtered_peers_active peers, matches_search-empty peer)

  -- Under any search the active and the inactive peers together are as many as all that are found.
  -- Without a search text all peers are shown, and the active ones are as many as the page counts.
  pub filtered_peers_lem :
      (query : Text) (peers : List Peer)
      → (length (filtered_peers active_only query peers)
            + length (filtered_peers inactive_only query peers)
          ≡ length (filtered_peers all_peers query peers))
        × (filtered_peers all_peers [] peers ≡ peers)
        × (length (filtered_peers active_only [] peers) ≡ active_peers peers)
  unfolding filtered_peers
  filtered_peers_lem query peers = (
    length-filtered_peers query peers,
    filter-all (λ p. true && matches_search [] p) peers
        (λ p. ground (arith, matches_search-empty p)),
    length-filtered_peers_active peers,
  )
