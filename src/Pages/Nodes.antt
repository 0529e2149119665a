-- ===== src/Pages/Nodes.antt =====
-- web/src/pages/nodes.tsx: the search over the nodes and the dialog that deletes one.
pub mod Narrowing
pub mod Deletion
pub mod Rendering
pub mod Offers
pub mod Liveness
pub mod Frame
pub mod Pending
use karadul.Base.{
  Bool, ◌||◌, Option, none, some, List, ◌++◌, filter, Text, codes, includes, to_lower_case,
}
use karadul.Store.{Node}
use karadul.Api.{Request, Reply, Outcome, ok, err, App, success, error}
use karadul.Api.Mutations.{show_toast, delete_node}
use karadul.Api.Mutations.Runner.{Runner}

-- The state that the deletion uses: the node that the dialog asks about.
pub record NodesPage : Type 0 where
  pub node_to_delete : Option Node
  pub search_query : Text

-- `to_lower_case` is `String.prototype.toLowerCase`.
module _ (to_lower_case : Text → Text) where
  abbrev pub matches : Text → Node → Bool
  matches query node =
      includes (to_lower_case node.hostname) (to_lower_case query)
      || includes node.virtual_ip query
      || includes (to_lower_case node.public_key) (to_lower_case query)

  -- `filteredNodes`
  unfoldable pub filtered_nodes : Text → List Node → List Node
  filtered_nodes query nodes = filter (matches query) nodes

-- What follows the call of the mutation, for the node that was to be deleted.
pub after_delete : Node → Outcome (Unit {0}) × App → NodesPage → NodesPage × App
after_delete node (ok value, app) page = (
  record page { node_to_delete = none },
  show_toast (success (codes "Node \"" ++ node.hostname ++ codes "\" deleted successfully")) app,
)
after_delete node (err message, app) page =
    (page, show_toast (error (codes "Failed to delete node: " ++ message)) app)

-- `handleDelete()`
unfoldable pub handle_delete :
    Runner → (Request → Reply) → (Text → Outcome (Unit {0})) → NodesPage × App → NodesPage × App
unfolding after_delete
handle_delete r serve parse (page, app) = elim page.node_to_delete [
  | none ↦ (page, app)
  | some node ↦ after_delete node (r.mutate_async _ _ (delete_node serve parse) node.id app) page
]
