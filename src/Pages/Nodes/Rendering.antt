-- ===== src/Pages/Nodes/Rendering.antt =====
-- What the page of the nodes (web/src/pages/nodes.tsx) renders, and what its controls do.
use karadul.Base.{
  ℕ, Bool, true, false, Option, none, some, List, [], ◌∷◌, ◌++◌, map, ◌==◌, if◌then◌else◌, length,
  Text, codes,
}
use karadul.Store.{Node}
use karadul.Pages.Badges.{status_badge}
use karadul.Format.{format_bytes}
use karadul.Pages.View.{
  Query, Item, caption, badge, skeleton, button, menu, input, flat_map, repeat, captions,
  error_alert, empty_state, is_true, list_of, or_text,
}
use karadul.Pages.Nodes.{NodesPage, filtered_nodes}

-- What the controls of the page do.
pub data NodesEvent : Type 0 where
  refetch export_csv export_json close_dialog confirm_delete : NodesEvent
  search : Text → NodesEvent
  view_details ask_delete : Node → NodesEvent

abbrev pub node_title : List (Item NodesEvent)
node_title = captions (codes "Nodes" ∷ codes "Manage your mesh network nodes" ∷ [])

-- The title with the menu of the exports and the button that fetches again.
abbrev pub nodes_toolbar : Query (List Node) → List (Item NodesEvent)
nodes_toolbar query =
    node_title
    ++ menu (codes "Export") (length (list_of query.data_) == 0)
        ((codes "Export as CSV", export_csv) ∷ (codes "Export as JSON", export_json) ∷ [])
      ∷ button (codes "RefreshCw") query.is_loading refetch
      ∷ []

abbrev pub node_columns : Text → List (Item NodesEvent)
node_columns fourth =
    captions (
      codes "Hostname" ∷ codes "Virtual IP" ∷ codes "Status" ∷ fourth ∷ codes "Last Seen" ∷ [] ∷ [])

abbrev yes_no : Option Bool → Text
yes_no flag = if is_true flag then codes "Yes" else codes "No"

-- The six cells of a row while the nodes are loading.
abbrev pub node_skeleton : List (Item NodesEvent)
node_skeleton = repeat 6 (skeleton ∷ [])

-- `format_date` is `formatDate`, which prints a time for the locale.
module _ (format_date : Text → Text) where
  abbrev last_seen_text : Option Text → Text
  last_seen_text none = codes "Never"
  last_seen_text (some []) = codes "Never"
  last_seen_text (some (c ∷ time)) = format_date (c ∷ time)

  -- The row of a node.
  abbrev pub node_row : Node → List (Item NodesEvent)
  node_row node =
      caption node.hostname ∷ (if is_true node.is_exit_node then badge (codes "Exit") ∷ [] else [])
      ++ (caption node.virtual_ip
          ∷ badge (status_badge node.status).text
          ∷ caption (yes_no node.is_exit_node)
          ∷ caption (last_seen_text node.last_seen)
          ∷ menu (codes "MoreHorizontal") false
              ((codes "View Details", view_details node) ∷ (codes "Delete", ask_delete node) ∷ [])
          ∷ [])

  -- The list, in its three states. `filtered` is `filteredNodes`.
  abbrev pub nodes_table : Bool → Text → Option (List Node) → List (Item NodesEvent)
  nodes_table true query filtered = node_columns (codes "Exit Node") ++ repeat 5 node_skeleton
  nodes_table false [] (some []) =
      empty_state (codes "No nodes found")
        (codes "Your mesh network doesn't have any nodes yet. Add a node to get started.") none
  nodes_table false (c ∷ query) (some []) =
      empty_state (codes "No nodes found")
        (codes "No nodes match your search criteria. Try a different query.")
        (some (codes "Clear Search", search []))
  nodes_table false query none = node_columns (codes "Version")
  nodes_table false query (some (node ∷ nodes)) =
      node_columns (codes "Version") ++ flat_map node_row (node ∷ nodes)

abbrev pub routes_items : Option (List Text) → List (Item NodesEvent)
routes_items none = []
routes_items (some []) = []
routes_items (some (route ∷ routes)) =
    caption (codes "Advertised Routes") ∷ map badge (route ∷ routes)

module _ (log_ratio : ℕ → ℕ) where
  abbrev bytes_text : Option ℕ → Text
  bytes_text none = format_bytes log_ratio 0 2
  bytes_text (some n) = format_bytes log_ratio n 2

  -- The details of the selected node.
  abbrev pub node_details : Option Node → List (Item NodesEvent)
  node_details none = captions (
      codes "Node Details"
      ∷ codes "Select a node to view details"
      ∷ codes "Click on a node to view its details"
      ∷ [])
  node_details (some node) =
      captions (
        codes "Node Details"
        ∷ node.hostname
        ∷ codes "ID"
        ∷ node.id
        ∷ codes "Public Key"
        ∷ node.public_key
        ∷ codes "Endpoint"
        ∷ or_text node.endpoint (codes "N/A")
        ∷ codes "Exit Node"
        ∷ yes_no node.is_exit_node
        ∷ codes "Data Received"
        ∷ bytes_text node.rx_bytes
        ∷ codes "Data Sent"
        ∷ bytes_text node.tx_bytes
        ∷ [])
      ++ routes_items node.routes

-- The dialog, which is there while a node is to be deleted. `deleting` is `deleteNode.isPending`.
abbrev pub delete_dialog : Bool → Option Node → List (Item NodesEvent)
delete_dialog deleting none = []
delete_dialog deleting (some node) =
    captions (
      codes "Delete Node"
      ∷ (codes "Are you sure you want to delete "
          ++ node.hostname
          ++ codes "? This action cannot be undone.")
      ∷ [])
    ++ button (codes "Cancel") false close_dialog
      ∷ button (if deleting then codes "Deleting..." else codes "Delete") deleting confirm_delete
      ∷ button (codes "Close") false close_dialog
      ∷ []

module _ (to_lower_case : Text → Text) where
  abbrev pub found : Text → Option (List Node) → Option (List Node)
  unfolding filtered_nodes
  found query none = none
  found query (some nodes) = some (filtered_nodes to_lower_case query nodes)

module _ (to_lower_case format_date : Text → Text) (log_ratio : ℕ → ℕ) where
  -- The page without an error.
  unfoldable pub nodes_content :
      Query (List Node) → Option Node → Bool → NodesPage → List (Item NodesEvent)
  unfolding found
  nodes_content query selected deleting page =
      nodes_toolbar query
      ++ (captions (codes "Node List" ∷ codes "All nodes in your mesh network" ∷ [])
          ++ (input (codes "Search nodes...") page.search_query search
                ∷ nodes_table format_date query.is_loading page.search_query
                    (found to_lower_case page.search_query query.data_)
              ++ (node_details log_ratio selected ++ delete_dialog deleting page.node_to_delete)))

  -- `NodesPage`
  unfoldable pub nodes_page :
      Query (List Node) → Option Node → Bool → NodesPage → List (Item NodesEvent)
  unfolding nodes_content
  nodes_page query selected deleting page = elim query.error [
    | some message ↦ node_title ++ error_alert (codes "Failed to load nodes") message (some refetch)
    | none ↦ nodes_content query selected deleting page
  ]
