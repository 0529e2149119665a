-- ===== src/Pages/Nodes/Liveness.antt =====
-- The way to the deletion of a node (web/src/pages/nodes.tsx), control by control.
use karadul.Base.{
  ℕ, zero, suc, ◌≡◌, refl, sym, ap, ◌∙◌, ◌⊎◌, inl, inr, false, Option, none, some, List, [], ◌∷◌,
  ◌++◌, arith, if◌then◌else◌, Option-cases, get_elem?, filter, Text, codes, includes-empty,
  to_lower_case,
}
use mathlib.Core.Path.{subst}
use karadul.Store.{Node}
use karadul.Api.{Request, Reply, Outcome, ok, err, App, make_request}
use karadul.Api.Mutations.{delete_node, delete_options}
use karadul.Api.Mutations.Runner.{Runner}
use karadul.Api.Mutations.Announce.{delete_node-requests}
use karadul.Pages.Search.{filter-all}
use karadul.Pages.View.{
  Query, Item, badge, OfferedIn, ReachableIn, OfferedIn-append_left, OfferedIn-append_right,
  flat_map, is_true,
}
use karadul.Pages.Nodes.{NodesPage, matches, filtered_nodes, after_delete}
use karadul.Pages.Nodes.Deletion.{handle_delete-some}
use karadul.Pages.Nodes.Rendering.{
  NodesEvent, close_dialog, confirm_delete, search, ask_delete, nodes_table, node_row, node_columns,
  node_details, delete_dialog, nodes_content, nodes_page, found,
}
use karadul.Pages.Nodes.Offers.{nodes_update}

-- Without a search text all nodes are found.
filter-matches_empty :
    (to_lower_case : Text → Text) (nodes : List Node)
    → to_lower_case [] ≡ []
    → filter (matches to_lower_case []) nodes ≡ nodes
filter-matches_empty to_lower_case nodes h = filter-all (matches to_lower_case []) nodes (λ node.
    ground (arith, h, includes-empty (to_lower_case node.hostname), includes-empty node.virtual_ip))

row-ask_delete :
    (format_date : Text → Text) (node : Node)
    → OfferedIn (node_row format_date node) (ask_delete node)
row-ask_delete format_date node = inr (
    OfferedIn-append_right (if is_true node.is_exit_node then badge (codes "Exit") ∷ [] else []) _
      (ask_delete node) (inr (inr (inr (inr (inl (refl, inr (inl refl))))))))

rows-ask_delete :
    (format_date : Text → Text) (nodes : List Node) (i : ℕ) (node : Node)
    → get_elem? nodes i ≡ some node
    → OfferedIn (flat_map (node_row format_date) nodes) (ask_delete node)
rows-ask_delete format_date [] i node h = absurd (cc)
rows-ask_delete format_date (first ∷ nodes) zero node h =
    let same : first ≡ node = cc in
    OfferedIn-append_left (node_row format_date first) (flat_map (node_row format_date) nodes)
      (ask_delete node) (rw (same) (row-ask_delete format_date node))
rows-ask_delete format_date (first ∷ nodes) (suc i) node h =
    OfferedIn-append_right (node_row format_date first) (flat_map (node_row format_date) nodes)
      (ask_delete node) (rows-ask_delete format_date nodes i node h)

table-ask_delete :
    (format_date : Text → Text) (nodes : List Node) (i : ℕ) (node : Node)
    → get_elem? nodes i ≡ some node
    → OfferedIn (nodes_table format_date false [] (some nodes)) (ask_delete node)
table-ask_delete format_date [] i node h = absurd (cc)
table-ask_delete format_date (first ∷ nodes) i node h =
    OfferedIn-append_right (node_columns (codes "Version"))
      (flat_map (node_row format_date) (first ∷ nodes)) (ask_delete node)
      (rows-ask_delete format_date (first ∷ nodes) i node h)

requests-after_delete :
    (node : Node) (page : NodesPage) (result : Outcome (Unit {0}) × App)
    → (after_delete node result page).1.requests ≡ result.1.requests
unfolding after_delete
requests-after_delete node page (ok value, app) = refl
requests-after_delete node page (err message, app) = refl

table-ask_delete_all :
    (to_lower_case format_date : Text → Text) (nodes : List Node) (i : ℕ) (node : Node)
    → to_lower_case [] ≡ []
    → get_elem? nodes i ≡ some node
    → OfferedIn
        (nodes_table format_date false [] (found to_lower_case [] (some nodes)))
        (ask_delete node)
unfolding filtered_nodes
table-ask_delete_all to_lower_case format_date nodes i node lower h =
    subst
      (λ (l : List Node). OfferedIn (nodes_table format_date false [] (some l)) (ask_delete node))
      (sym (filter-matches_empty to_lower_case nodes lower))
      (table-ask_delete format_date nodes i node h)

module _ (to_lower_case format_date : Text → Text) (log_ratio : ℕ → ℕ)
    (query : Query (List Node)) where
  -- The page as it is rendered while no deletion is under way.
  abbrev pub view : NodesPage × App → List (Item NodesEvent)
  view (page, app) =
      nodes_page to_lower_case format_date log_ratio query app.store.selected_node false page

  search-offered :
      (page : NodesPage) (app : App) (t : Text)
      → query.error ≡ none
      → OfferedIn (view (page, app)) (search t)
  unfolding nodes_page nodes_content
  search-offered page app t no_error =
      rw (no_error) (inr (inr (inr (inr (inr (inr (inl (t, refl))))))))

  ask_delete-offered :
      (page : NodesPage) (app : App) (nodes : List Node) (i : ℕ) (node : Node)
      → to_lower_case [] ≡ []
      → query.error ≡ none
      → query.is_loading ≡ false
      → query.data_ ≡ some nodes
      → get_elem? nodes i ≡ some node
      → OfferedIn (view (record page { search_query = [] }, app)) (ask_delete node)
  unfolding nodes_page nodes_content
  ask_delete-offered page app nodes i node lower no_error loaded fetched h =
      let rest =
        node_details log_ratio app.store.selected_node ++ delete_dialog false page.node_to_delete in
      let rows : OfferedIn (nodes_table format_date false [] (found to_lower_case [] (some nodes)))
          (ask_delete node) =
        table-ask_delete_all to_lower_case format_date nodes i node lower h in
      rw (no_error, loaded, fetched)
        (inr (
          inr (
            inr (
              inr (
                inr (
                  inr (
                    inr (
                      OfferedIn-append_left
                        (nodes_table format_date false [] (found to_lower_case [] (some nodes)))
                        rest (ask_delete node) rows))))))))

  -- A control of the open dialog is on the page.
  dialog-offered :
      (page : NodesPage) (app : App) (node : Node) (event : NodesEvent)
      → query.error ≡ none
      → page.node_to_delete ≡ some node
      → OfferedIn (delete_dialog false (some node)) event
      → OfferedIn (view (page, app)) event
  unfolding nodes_page nodes_content
  dialog-offered page app node event no_error asked inside =
      let table =
        nodes_table format_date query.is_loading page.search_query
          (found to_lower_case page.search_query query.data_) in
      let details = node_details log_ratio app.store.selected_node in
      let dialog = delete_dialog false (some node) in
      rw (no_error, asked)
        (inr (
          inr (
            inr (
              inr (
                inr (
                  inr (
                    inr (
                      OfferedIn-append_right table (details ++ dialog) event
                        (OfferedIn-append_right details dialog event inside)))))))))

  -- The user can make the event on the page, or in its dialog if that is open.
  abbrev pub Reachable : NodesPage × App → NodesEvent → Type 0
  Reachable (page, app) event =
      ReachableIn (delete_dialog false page.node_to_delete) (view (page, app)) event

  -- An open dialog offers to close it, and to confirm.
  dialog-Reachable :
      (page : NodesPage) (app : App) (target : Node) (event : NodesEvent)
      → query.error ≡ none
      → page.node_to_delete ≡ some target
      → OfferedIn (delete_dialog false (some target)) event
      → Reachable (page, app) event
  dialog-Reachable page app target event no_error asked inside =
      let shown = dialog-offered page app target event no_error asked inside in
      subst (λ (o : Option Node). ReachableIn (delete_dialog false o) (view (page, app)) event)
        (sym asked) (shown, inside)

-- Where the query has brought the nodes without an error and is not loading, and no deletion is
-- under way, each of the nodes can be deleted, whatever the search and the dialog. A dialog that is
-- open is modal, but can be closed; with the dialog closed the search can be cleared, then the row
-- of the node offers to ask, and then the dialog, which is open for this node, offers to confirm,
-- which sends the one request that deletes this node. `toLowerCase` leaves the empty text as it is.
pub deletion_possible :
    (to_lower_case format_date : Text → Text) (log_ratio : ℕ → ℕ) (query : Query (List Node))
    (r : Runner) (serve : Request → Reply) (parse : Text → Outcome (Unit {0})) (nodes : List Node)
    (i : ℕ) (node : Node) (page : NodesPage) (app : App)
    → to_lower_case [] ≡ []
    → query.error ≡ none
    → query.is_loading ≡ false
    → query.data_ ≡ some nodes
    → get_elem? nodes i ≡ some node
    → let can = Reachable to_lower_case format_date log_ratio query in
      let update = nodes_update r serve parse in
      let closed = update close_dialog (page, app) in
      let cleared = update (search []) closed in
      let asked = update (ask_delete node) cleared in
      ((page.node_to_delete ≡ none) ⊎ can (page, app) close_dialog)
      × (closed ≡ (record page { node_to_delete = none }, app))
      × can closed (search [])
      × can cleared (ask_delete node)
      × (asked.0.node_to_delete ≡ some node)
      × can asked confirm_delete
      × ((update confirm_delete asked).1.requests
          ≡ app.requests
            ++ make_request (codes "/v1/admin/nodes/" ++ node.id) delete_options app.storage ∷ [])
unfolding nodes_update
deletion_possible to_lower_case format_date log_ratio query r serve parse nodes i node page app
      lower no_error loaded fetched h =
    let closed : NodesPage = record page { node_to_delete = none } in
    let cleared : NodesPage = record closed { search_query = [] } in
    let asked : NodesPage = record cleared { node_to_delete = some node } in
    (
      elim (Option-cases page.node_to_delete) [
        | inl e ↦ inl e
        | inr (target, e) ↦ inr (
            dialog-Reachable to_lower_case format_date log_ratio query page app target close_dialog
              no_error e (inr (inr (inl (refl, refl)))))
      ],
      refl,
      search-offered to_lower_case format_date log_ratio query closed app [] no_error,
      ask_delete-offered to_lower_case format_date log_ratio query closed app nodes i node lower
          no_error loaded fetched h,
      refl,
      dialog-Reachable to_lower_case format_date log_ratio query asked app node confirm_delete
          no_error refl (inr (inr (inr (inl (refl, refl))))),
      ap (λ (result : NodesPage × App). result.1.requests)
            (handle_delete-some r serve parse node asked app refl)
          ∙ requests-after_delete node asked
              (r.mutate_async _ _ (delete_node serve parse) node.id app)
          ∙ delete_node-requests r serve parse node.id app,
    )
