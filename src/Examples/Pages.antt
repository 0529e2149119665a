-- ===== src/Examples/Pages.antt =====
-- The pages of the nodes, the peers and the mesh: their state and their figures.
use karadul.Base.{◌≡◌, refl, some, List, [], ◌∷◌, foldl, codes, to_lower_case}
use karadul.Api.Mutations.{delete_node}
use karadul.Pages.Nodes.{NodesPage, filtered_nodes, handle_delete}
use karadul.Api.{read_reply}
use karadul.Pages.Nodes.Rendering.{NodesEvent, search, view_details, close_dialog}
use karadul.Pages.Nodes.Pending.{
  delete_request, start_delete, finish_delete, next_page, halves-handle_delete,
}
use karadul.Examples.Data.{laptop, server, app, runner, silent, no_json}

filtered_nodes_test :
    filtered_nodes to_lower_case (codes "LaP") (laptop ∷ server ∷ []) ≡ laptop ∷ []
unfolding filtered_nodes
filtered_nodes_test = refl

abbrev dialog : NodesPage
dialog = record { node_to_delete = some server; search_query = [] }

abbrev meanwhile : List NodesEvent
meanwhile = search (codes "lap") ∷ view_details laptop ∷ close_dialog ∷ []

halves-handle_delete_example :
    finish_delete
      (delete_node silent no_json)
      server
      (read_reply no_json (silent (delete_request server app)))
      (foldl (next_page runner silent no_json) (dialog, start_delete server app) meanwhile)
    ≡ foldl
        (next_page runner silent no_json)
        (handle_delete runner silent no_json (dialog, app))
        meanwhile
halves-handle_delete_example =
    halves-handle_delete runner silent no_json meanwhile server dialog app refl refl
