-- ===== src/Pages/Nodes/Offers.antt =====
-- What the user can do on the page of the nodes (web/src/pages/nodes.tsx), event by event.
use karadul.Base.{
  ℕ, ◌≡◌, refl, inl, inr, Bool, true, false, Option, none, some, List, [], ◌∷◌, ◌++◌, arith,
  if◌then◌else◌, Text, codes,
}
use karadul.Store.{Node, act, set_selected_node}
use karadul.Api.{Request, Reply, Outcome, App}
use karadul.Api.Mutations.Runner.{Runner}
use karadul.Pages.View.{
  Query, Item, badge, input, OfferedIn, OfferedIn-append, OfferedIn-flat_map, flat_map, repeat,
  captions, error_alert, is_true, captions_inert, badges_inert, skeletons_inert, OfferedIn-repeat,
}
use karadul.Pages.Nodes.{NodesPage, handle_delete}
use karadul.Pages.Nodes.Rendering.{
  NodesEvent, refetch, export_csv, export_json, close_dialog, confirm_delete, search, view_details,
  ask_delete, nodes_toolbar, node_columns, nodes_table, node_row, node_details, delete_dialog,
  nodes_content, nodes_page, node_skeleton, routes_items, node_title, found,
}

-- What an event does to the page and to the shared state. The exports download a file, and the query
-- fetches again of itself.
unfoldable pub nodes_update :
    Runner
    → (Request → Reply)
    → (Text → Outcome (Unit {0}))
    → NodesEvent
    → NodesPage × App
    → NodesPage × App
unfolding handle_delete
nodes_update r serve parse refetch (page, app) = (page, app)
nodes_update r serve parse export_csv (page, app) = (page, app)
nodes_update r serve parse export_json (page, app) = (page, app)
nodes_update r serve parse close_dialog (page, app) = (record page { node_to_delete = none }, app)
nodes_update r serve parse confirm_delete (page, app) = handle_delete r serve parse (page, app)
nodes_update r serve parse (search query) (page, app) = (record page { search_query = query }, app)
nodes_update r serve parse (view_details node) (page, app) =
    (page, record app { store = act app.store (set_selected_node (some node)) })
nodes_update r serve parse (ask_delete node) (page, app) =
    (record page { node_to_delete = some node }, app)

-- The parts of the page that do not offer the deletion itself.
toolbar_no_confirm :
    (query : Query (List Node)) → OfferedIn (nodes_toolbar query) confirm_delete → ⊥
toolbar_no_confirm query h = ground arith

badge_if_no_confirm :
    (flag : Bool) (rest : List (Item NodesEvent))
    → (OfferedIn rest confirm_delete → ⊥)
    → OfferedIn ((if flag then badge (codes "Exit") ∷ [] else []) ++ rest) confirm_delete
    → ⊥
badge_if_no_confirm true rest none_in h = ground (arith, none_in)
badge_if_no_confirm false rest none_in h = none_in h

row_no_confirm :
    (format_date : Text → Text) (node : Node)
    → OfferedIn (node_row format_date node) confirm_delete
    → ⊥
row_no_confirm format_date node (inl h) = h
row_no_confirm format_date node (inr h) =
    badge_if_no_confirm (is_true node.is_exit_node) _ (λ rest. ground arith) h

columns_no_confirm :
    (fourth : Text) (rest : List (Item NodesEvent))
    → (OfferedIn rest confirm_delete → ⊥)
    → OfferedIn (node_columns fourth ++ rest) confirm_delete
    → ⊥
columns_no_confirm fourth rest none_in h = ground (arith, none_in)

rows_no_confirm :
    (format_date : Text → Text) (nodes : List Node)
    → OfferedIn
        (node_columns (codes "Version") ++ flat_map (node_row format_date) nodes)
        confirm_delete
    → ⊥
rows_no_confirm format_date nodes h =
    columns_no_confirm (codes "Version") (flat_map (node_row format_date) nodes)
      (λ rows.
        let (node, row) = OfferedIn-flat_map (node_row format_date) nodes confirm_delete rows in
        row_no_confirm format_date node row)
      h

table_no_confirm :
    (format_date : Text → Text) (is_loading : Bool) (query : Text) (filtered : Option (List Node))
    → OfferedIn (nodes_table format_date is_loading query filtered) confirm_delete
    → ⊥
table_no_confirm format_date true query filtered h =
    columns_no_confirm (codes "Exit Node") (repeat 5 node_skeleton)
      (λ rows.
        skeletons_inert 6 confirm_delete (OfferedIn-repeat 5 node_skeleton confirm_delete rows))
      h
table_no_confirm format_date false [] (some []) h = ground arith
table_no_confirm format_date false (c ∷ query) (some []) h = ground arith
table_no_confirm format_date false [] none h = ground arith
table_no_confirm format_date false (c ∷ query) none h = ground arith
table_no_confirm format_date false [] (some (node ∷ nodes)) h =
    rows_no_confirm format_date (node ∷ nodes) h
table_no_confirm format_date false (c ∷ query) (some (node ∷ nodes)) h =
    rows_no_confirm format_date (node ∷ nodes) h

routes_inert : (routes : Option (List Text)) → OfferedIn (routes_items routes) confirm_delete → ⊥
routes_inert none h = h
routes_inert (some []) h = h
routes_inert (some (route ∷ routes)) h =
    ground (arith, badges_inert (route ∷ routes) confirm_delete)

details_no_confirm :
    (log_ratio : ℕ → ℕ) (selected : Option Node)
    → OfferedIn (node_details log_ratio selected) confirm_delete
    → ⊥
details_no_confirm log_ratio none h = ground arith
details_no_confirm log_ratio (some node) h = ground (arith, routes_inert node.routes)

-- The dialog offers it, for its node.
dialog-confirm :
    (deleting : Bool) (target : Option Node)
    → OfferedIn (delete_dialog deleting target) confirm_delete
    → (deleting ≡ false) × ((node : Node) × (target ≡ some node))
dialog-confirm deleting none h = elim h [ ]
dialog-confirm deleting (some node) h = (ground arith, (node, refl))

-- An error is shown in place of all else.
error_no_confirm :
    (error : Option Text) (content : List (Item NodesEvent))
    → OfferedIn
        (elim error [
          | some message ↦
              node_title ++ error_alert (codes "Failed to load nodes") message (some refetch)
          | none ↦ content
        ])
        confirm_delete
    → (error ≡ none) × OfferedIn content confirm_delete
error_no_confirm none content h = (refl, h)
error_no_confirm (some message) content h = ground arith

module _ (to_lower_case format_date : Text → Text) (log_ratio : ℕ → ℕ) where
  content-confirm :
      (query : Query (List Node)) (selected : Option Node) (deleting : Bool) (page : NodesPage)
      → OfferedIn
          (nodes_content to_lower_case format_date log_ratio query selected deleting page)
          confirm_delete
      → (deleting ≡ false) × ((node : Node) × (page.node_to_delete ≡ some node))
  unfolding nodes_content
  content-confirm query selected deleting page h =
      let e = confirm_delete in
      let filtered = found to_lower_case page.search_query query.data_ in
      let table = nodes_table format_date query.is_loading page.search_query filtered in
      let details = node_details log_ratio selected in
      let dialog = delete_dialog deleting page.node_to_delete in
      let body =
        input (codes "Search nodes...") page.search_query search ∷ table ++ (details ++ dialog) in
      let head = captions (codes "Node List" ∷ codes "All nodes in your mesh network" ∷ []) in
      elim (OfferedIn-append (nodes_toolbar query) (head ++ body) e h) [
        | inl h ↦ absurd (toolbar_no_confirm query h)
        | inr h ↦ elim (OfferedIn-append head body e h) [
          | inl h ↦
              absurd (
                captions_inert (codes "Node List" ∷ codes "All nodes in your mesh network" ∷ []) e
                  h)
          | inr (inl (t, h)) ↦ absurd (cc)
          | inr (inr h) ↦ elim (OfferedIn-append table (details ++ dialog) e h) [
            | inl h ↦
                absurd (table_no_confirm format_date query.is_loading page.search_query filtered h)
            | inr h ↦ elim (OfferedIn-append details dialog e h) [
              | inl h ↦ absurd (details_no_confirm log_ratio selected h)
              | inr h ↦ dialog-confirm deleting page.node_to_delete h
            ]
          ]
        ]
      ]

  -- The deletion is offered only in the dialog: the dialog is open for a node, no deletion is under
  -- way, and the nodes could be fetched.
  pub confirm_delete-OfferedIn :
      (query : Query (List Node)) (selected : Option Node) (deleting : Bool) (page : NodesPage)
      → OfferedIn
          (nodes_page to_lower_case format_date log_ratio query selected deleting page)
          confirm_delete
      → (query.error ≡ none)
        × (deleting ≡ false)
        × ((node : Node) × (page.node_to_delete ≡ some node))
  unfolding nodes_page
  confirm_delete-OfferedIn query selected deleting page h =
      let (no_error, inside) = error_no_confirm query.error _ h in
      let (idle, open_for) = content-confirm query selected deleting page inside in
      (no_error, idle, open_for)
