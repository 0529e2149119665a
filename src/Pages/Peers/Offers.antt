-- ===== src/Pages/Peers/Offers.antt =====
-- Whose details the page of the peers (web/src/pages/peers.tsx) offers.
use karadul.Base.{
  ℕ, suc, ◌≡◌, refl, ap, ◌∙◌, inl, inr, Bool, true, false, Option, none, some, List, [], ◌∷◌, ◌++◌,
  arith, if◌then◌else◌, get_elem?, Text, codes,
}
use karadul.Store.{Peer}
use karadul.Pages.View.{
  Platform, Query, Item, OfferedIn, OfferedIn-append, OfferedIn-append_after,
  OfferedIn-append_before, OfferedIn-repeat, captions_inert, skeletons_inert, flat_map, repeat,
  captions, error_alert, list_of,
}
use karadul.Pages.Peers.{Filter, filtered_peers}
use karadul.Pages.Peers.Rendering.{
  peers_columns, peer_skeleton, peer_row, peers_table, peer_dialog, found, peers_content,
  peers_page,
}
use karadul.Pages.Peers.Cards.{
  PeersPage, PeersEvent, refetch, view_details, peers_title, peers_toolbar, peers_cards,
  peers_controls, stat_card_skeleton, cards_texts,
}

toolbar_no_details :
    (query : Query (List Peer)) (peer : Peer)
    → OfferedIn (peers_toolbar query) (view_details peer)
    → ⊥
toolbar_no_details query peer h = ground arith

controls_no_details :
    (query : Text) (peer : Peer) → OfferedIn (peers_controls query) (view_details peer) → ⊥
controls_no_details query peer h = ground arith

dialog_no_details :
    (js : Platform) (selected : Option Peer) (peer : Peer)
    → OfferedIn (peer_dialog js selected) (view_details peer)
    → ⊥
dialog_no_details js none peer h = h
dialog_no_details js (some other) peer h = ground arith

cards_inert :
    (loading : Bool) (texts : List Text) (event : PeersEvent)
    → OfferedIn (if loading then repeat 4 stat_card_skeleton else captions texts) event
    → ⊥
cards_inert true texts event h =
    skeletons_inert 3 event (OfferedIn-repeat 4 stat_card_skeleton event h)
cards_inert false texts event h = captions_inert texts event h

row-details :
    (js : Platform) (first peer : Peer)
    → OfferedIn (peer_row js first) (view_details peer)
    → first ≡ peer
row-details js first peer h = ground arith

rows-details :
    (js : Platform) (peers : List Peer) (peer : Peer)
    → OfferedIn (flat_map (peer_row js) peers) (view_details peer)
    → (i : ℕ) × (get_elem? peers i ≡ some peer)
rows-details js [] peer h = elim h [ ]
rows-details js (first ∷ peers) peer h =
    elim (OfferedIn-append (peer_row js first) (flat_map (peer_row js) peers) (view_details peer)
      h) [
        | inl here ↦ (0, ap some (row-details js first peer here))
        | inr later ↦ let (i, e) = rows-details js peers peer later in (suc i, e)
      ]

columns_no_details :
    (rest : List (Item PeersEvent)) (peer : Peer)
    → OfferedIn (peers_columns ++ rest) (view_details peer)
    → OfferedIn rest (view_details peer)
columns_no_details rest peer h =
    OfferedIn-append_after peers_columns rest (view_details peer) (λ head. ground arith) h

-- The details that the list offers are those of a peer in it.
table-details :
    (js : Platform) (loading : Bool) (query : Text) (value : Filter) (filtered : Option (List Peer))
    (peer : Peer)
    → OfferedIn (peers_table js loading query value filtered) (view_details peer)
    → (loading ≡ false)
      × ((peers : List Peer) × (filtered ≡ some peers)
          × ((i : ℕ) × (get_elem? peers i ≡ some peer)))
table-details js true query value filtered peer h = absurd (
    skeletons_inert 8 (view_details peer) (
      OfferedIn-repeat 5 peer_skeleton (view_details peer)
        (columns_no_details (repeat 5 peer_skeleton) peer h)))
table-details js false query value none peer h = absurd (ground arith)
table-details js false [] value (some []) peer h = absurd (ground arith)
table-details js false (c ∷ query) value (some []) peer h = absurd (ground arith)
table-details js false query value (some (first ∷ peers)) peer h =
    let (i, e) =
      rows-details js (first ∷ peers) peer
        (columns_no_details (flat_map (peer_row js) (first ∷ peers)) peer h) in
    (refl, (first ∷ peers, refl, (i, e)))

error_no_details :
    (error : Option Text) (content : List (Item PeersEvent)) (peer : Peer)
    → OfferedIn
        (elim error [
          | some message ↦
              peers_title ++ error_alert (codes "Failed to load peers") message (some refetch)
          | none ↦ content
        ])
        (view_details peer)
    → (error ≡ none) × OfferedIn content (view_details peer)
error_no_details none content peer h = (refl, h)
error_no_details (some message) content peer h = absurd (ground arith)

content-details :
    (js : Platform) (query : Query (List Peer)) (page : PeersPage) (peer : Peer)
    → OfferedIn (peers_content js query page) (view_details peer)
    → OfferedIn
        (peers_table js query.is_loading page.search_query page.filter_value
          (found js page.filter_value page.search_query query.data_))
        (view_details peer)
unfolding peers_content
content-details js query page peer h =
    let e = view_details peer in
    let value = page.filter_value in
    let table =
      peers_table js query.is_loading page.search_query value
        (found js value page.search_query query.data_) in
    let dialog = peer_dialog js page.selected_peer in
    let controls = peers_controls page.search_query in
    let body = controls ++ (table ++ dialog) in
    let peers = list_of query.data_ in
    let after_toolbar =
      OfferedIn-append_after (peers_toolbar query) (peers_cards query ++ body) e
        (toolbar_no_details query peer) h in
    let after_cards =
      OfferedIn-append_after (peers_cards query) body e
        (cards_inert query.is_loading (cards_texts peers) e) after_toolbar in
    let after_controls =
      OfferedIn-append_after controls (table ++ dialog) e
        (controls_no_details page.search_query peer) after_cards in
    OfferedIn-append_before table dialog e (dialog_no_details js page.selected_peer peer)
      after_controls

found-some :
    (js : Platform) (value : Filter) (query : Text) (fetched : Option (List Peer))
    (shown : List Peer)
    → found js value query fetched ≡ some shown
    → (peers : List Peer) × (fetched ≡ some peers)
      × (filtered_peers js.to_lower_case value query peers ≡ shown)
unfolding filtered_peers
found-some js value query none shown h = absurd (cc)
found-some js value query (some peers) shown h = (peers, refl, cc)

-- The page offers the details of no peer but one that the query brought and that the filter and the
-- search let through, and only while no error and no loading is shown.
pub view_details-OfferedIn :
    (js : Platform) (query : Query (List Peer)) (page : PeersPage) (peer : Peer)
    → OfferedIn (peers_page js query page) (view_details peer)
    → (query.error ≡ none)
      × (query.is_loading ≡ false)
      × ((peers : List Peer) × (query.data_ ≡ some peers)
          × ((i : ℕ) × (get_elem?
                  (filtered_peers js.to_lower_case page.filter_value page.search_query peers)
                  i
                ≡ some peer)))
unfolding peers_page
view_details-OfferedIn js query page peer h =
    let (no_error, inside) = error_no_details query.error _ peer h in
    let (loaded, (shown, some_shown, (i, e))) =
      table-details js query.is_loading page.search_query page.filter_value _ peer
        (content-details js query page peer inside) in
    let (peers, fetched, filtered) =
      found-some js page.filter_value page.search_query query.data_ shown some_shown in
    (no_error, loaded, (peers, fetched, (i, ap (λ (l : List Peer). get_elem? l i) filtered ∙ e)))
