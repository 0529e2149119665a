-- ===== src/Pages/Dashboard/Offers.antt =====
-- When the dashboard (web/src/pages/dashboard.tsx) lets the user fetch its data again.
use karadul.Base.{
  ℕ, ◌≡◌, refl, ◌≢◌, ◌↔◌, ◌⊎◌, inl, inr, Bool, true, false, Option, none, some, List, [], ◌∷◌, ◌++◌,
  arith, if◌then◌else◌, length, Text, codes, show_number,
}
use karadul.Store.{SystemStats, TrafficPoint}
use karadul.Pages.View.{
  list_of, Platform, Item, caption, skeleton, OfferedIn, OfferedIn-append_after, OfferedIn-repeat,
  captions, captions_inert, skeletons_inert, repeat, error_alert,
}
use karadul.Pages.Dashboard.{
  bytes_text, online_nodes, connected_peers, Queries, is_loading, error_of, DashboardEvent,
  refetch_all, dashboard_title, nodes_card, peers_card, chart_items, traffic_card, received_card,
  sent_card, status_card, dashboard_content, dashboard_page,
}

Inert : List (Item DashboardEvent) → Type 0
Inert items = OfferedIn items refetch_all → ⊥

append-Inert : (xs ys : List (Item DashboardEvent)) → Inert xs → Inert ys → Inert (xs ++ ys)
unfolding Inert
append-Inert xs ys a b h = b (OfferedIn-append_after xs ys refetch_all a h)

card-Inert :
    (loading : Bool) (title : Text) (texts : List Text)
    → Inert (caption title ∷ (if loading then skeleton ∷ [] else captions texts))
unfolding Inert
card-Inert loading title texts (inl h) = h
card-Inert true title texts (inr h) = ground arith
card-Inert false title texts (inr h) = captions_inert texts refetch_all h

chart_items-Inert : (points : List TrafficPoint) → Inert (chart_items points)
unfolding Inert
chart_items-Inert [] h = h
chart_items-Inert (point ∷ points) (inr (inr (inr h))) = chart_items-Inert points h
chart_items-Inert (point ∷ points) (inl h) = h
chart_items-Inert (point ∷ points) (inr (inl h)) = h
chart_items-Inert (point ∷ points) (inr (inr (inl h))) = h

either-Inert :
    (flag : Bool) (xs ys : List (Item DashboardEvent))
    → Inert xs
    → Inert ys
    → Inert (if flag then xs else ys)
either-Inert true xs ys a b = a
either-Inert false xs ys a b = b

skeletons-Inert : (n m : ℕ) → Inert (repeat n (repeat m (skeleton ∷ [])))
unfolding Inert
skeletons-Inert n m h =
    skeletons_inert m refetch_all (OfferedIn-repeat n (repeat m (skeleton ∷ [])) refetch_all h)

traffic_card-Inert : (q : Queries) (history : List TrafficPoint) → Inert (traffic_card q history)
unfolding Inert
traffic_card-Inert q history (inr (inr h)) =
    either-Inert (is_loading q) (skeleton ∷ []) (chart_items history) (λ s. ground arith)
      (chart_items-Inert history) h
traffic_card-Inert q history (inl h) = h
traffic_card-Inert q history (inr (inl h)) = h

module _ (js : Platform) (q : Queries) where
  status_card-Inert : Inert (status_card js q)
  unfolding Inert
  status_card-Inert (inr (inr h)) =
      either-Inert (is_loading q) (repeat 4 (repeat 3 (skeleton ∷ []))) _ (skeletons-Inert 4 3)
        (λ s. ground arith) h
  status_card-Inert (inl h) = h
  status_card-Inert (inr (inl h)) = h

  cards-Inert :
      (history : List TrafficPoint)
      → Inert (
          nodes_card q
          ++ (peers_card q
              ++ (received_card js q
                  ++ (sent_card js q ++ (traffic_card q history ++ status_card js q)))))
  unfolding peers_card
  cards-Inert history =
      let loading = is_loading q in
      let bottom =
        append-Inert (traffic_card q history) (status_card js q) (traffic_card-Inert q history)
          status_card-Inert in
      let sent =
        card-Inert loading (codes "Data Sent")
          (bytes_text js SystemStats.total_tx q.stats.data_ ∷ codes "Total outbound" ∷ []) in
      let received =
        card-Inert loading (codes "Data Received")
          (bytes_text js SystemStats.total_rx q.stats.data_ ∷ codes "Total inbound" ∷ []) in
      let peers = card-Inert loading (codes "Connected Peers") (
        show_number (connected_peers q)
        ∷ (codes "of " ++ show_number (length (list_of q.peers.data_)) ++ codes " total")
        ∷ []) in
      let nodes = card-Inert loading (codes "Total Nodes") (
        show_number (length (list_of q.nodes.data_))
        ∷ (show_number (online_nodes q) ++ codes " online")
        ∷ []) in
      append-Inert (nodes_card q) _ nodes (
        append-Inert (peers_card q) _ peers (
          append-Inert (received_card js q) _ received
            (append-Inert (sent_card js q) _ sent bottom)))

  -- The button is all that the page without an error offers.
  content-refetch_all :
      (history : List TrafficPoint)
      → OfferedIn (dashboard_content js q history) refetch_all
      → is_loading q ≡ false
  unfolding dashboard_content Inert
  content-refetch_all history (inr (inr (inl h))) = h.0
  content-refetch_all history (inl h) = elim h [ ]
  content-refetch_all history (inr (inl h)) = elim h [ ]
  content-refetch_all history (inr (inr (inr h))) = absurd (cards-Inert history h)

  refetch_all-content :
      (history : List TrafficPoint)
      → is_loading q ≡ false
      → OfferedIn (dashboard_content js q history) refetch_all
  unfolding dashboard_content
  refetch_all-content history idle = inr (inr (inl (idle, refl)))

-- The page for an error, or for none.
page_with : Option Text → List (Item DashboardEvent) → List (Item DashboardEvent)
page_with error content = elim error [
  | some message ↦
      dashboard_title ++ error_alert (codes "Failed to load dashboard") message (some refetch_all)
  | none ↦ content
]

page_with-refetch_all :
    (error : Option Text) (content : List (Item DashboardEvent)) (idle : Type 0)
    → (OfferedIn content refetch_all ↔ idle)
    → (OfferedIn (page_with error content) refetch_all ↔ ((error ≢ none) ⊎ ((error ≡ none) × idle)))
unfolding page_with
page_with-refetch_all none content idle e =
    (λ h. inr (refl, e.0 h), λ c. elim c [ inl n ↦ absurd (n refl) | inr (r, i) ↦ e.1 i ])
page_with-refetch_all (some message) content idle e =
    (λ h. inl (λ n. cc), λ c. inr (inr (inr (inr (inl (refl, refl))))))

-- The user can fetch the data again exactly if an error is shown, or else nothing is loading.
pub refetch_all-OfferedIn :
    (js : Platform) (q : Queries) (history : List TrafficPoint)
    → OfferedIn (dashboard_page js q history) refetch_all
      ↔ ((error_of q ≢ none) ⊎ ((error_of q ≡ none) × (is_loading q ≡ false)))
unfolding dashboard_page page_with
refetch_all-OfferedIn js q history =
    page_with-refetch_all (error_of q) (dashboard_content js q history) (is_loading q ≡ false)
      (content-refetch_all js q history, refetch_all-content js q history)
