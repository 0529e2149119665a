-- ===== src/Pages/Nodes/Deletion.antt =====
-- The dialog that deletes a node (web/src/pages/nodes.tsx).
use karadul.Base.{
  ◌+◌, ◌≡◌, refl, ap, ◌∙◌, ◌⊎◌, inl, inr, Option, none, some, List, [], ◌∷◌, ◌++◌, arith, length,
  length-append, Text,
}
use karadul.Store.{Node}
use karadul.Api.{Request, Reply, Outcome, ok, err, App, Toast, success, error}
use karadul.Api.Mutations.{delete_node, nodes_key}
use karadul.Api.Mutations.Runner.{Runner}
use karadul.Api.Mutations.Announce.{delete_node-Announces}
use karadul.Pages.Nodes.{NodesPage, after_delete, handle_delete}

-- The page and the state after the two outcomes of a deletion.
abbrev pub Deleted : NodesPage → App → NodesPage × App → Type 0
Deleted page before (page', after) =
    (page' ≡ record page { node_to_delete = none })
    × (after.invalidated ≡ before.invalidated ++ nodes_key ∷ [])
    × (length after.toasts ≡ length before.toasts + 2)

abbrev pub NotDeleted : NodesPage → App → NodesPage × App → Type 0
NotDeleted page before (page', after) =
    (page' ≡ page)
    × (after.invalidated ≡ before.invalidated)
    × (length after.toasts ≡ length before.toasts + 2)

two_more :
    (toasts after : List Toast) (first second : Toast)
    → after ≡ toasts ++ first ∷ []
    → length (after ++ second ∷ []) ≡ length toasts + 2
two_more toasts after first second e =
    length-append after (second ∷ [])
    ∙ omega (arith, ap length e, length-append toasts (first ∷ []))

-- What the mutation did to the state.
abbrev Called : App → Outcome (Unit {0}) × App → Type 0
Called before (outcome, after) =
    ((value : Unit {0}) × (outcome ≡ ok value)
      × (after.invalidated ≡ before.invalidated ++ nodes_key ∷ [])
      × ((s : Text) × (after.toasts ≡ before.toasts ++ success s ∷ [])))
    ⊎ ((message : Text) × (outcome ≡ err message)
        × (after.invalidated ≡ before.invalidated)
        × ((s : Text) × (after.toasts ≡ before.toasts ++ error s ∷ [])))

after_delete_lem :
    (node : Node) (page : NodesPage) (app : App) (result : Outcome (Unit {0}) × App)
    → Called app result
    → ((result.0 ≡ ok tt) × Deleted page app (after_delete node result page))
      ⊎ ((message : Text) × (result.0 ≡ err message)
          × NotDeleted page app (after_delete node result page))
unfolding after_delete
after_delete_lem node page app (ok value, after) (inl (v, e, keys, (s, shown))) =
    inl (refl, (refl, keys, two_more app.toasts after.toasts (success s) _ shown))
after_delete_lem node page app (err message, after) (inr (m, e, keys, (s, shown))) =
    inr (message, refl, (refl, keys, two_more app.toasts after.toasts (error s) _ shown))
after_delete_lem node page app (ok value, after) (inr (m, e, keys, shown)) = absurd (cc)
after_delete_lem node page app (err message, after) (inl (v, e, keys, shown)) = absurd (cc)

pub handle_delete-some :
    (r : Runner) (serve : Request → Reply) (parse : Text → Outcome (Unit {0})) (node : Node)
    (page : NodesPage) (app : App)
    → page.node_to_delete ≡ some node
    → handle_delete r serve parse (page, app)
      ≡ after_delete node (r.mutate_async _ _ (delete_node serve parse) node.id app) page
unfolding handle_delete
handle_delete-some r serve parse node page app e =
    ap
      (λ (o : Option Node). elim o [
        | none ↦ (page, app)
        | some n ↦ after_delete n (r.mutate_async _ _ (delete_node serve parse) n.id app) page
      ])
      e

-- The dialog closes exactly if the mutation returned, and then the nodes are fetched again; where it
-- threw, the dialog stays open on the same node. Either way the user sees two toasts.
pub handle_delete_lem :
    (r : Runner) (serve : Request → Reply) (parse : Text → Outcome (Unit {0})) (node : Node)
    (page : NodesPage) (app : App)
    → page.node_to_delete ≡ some node
    → let outcome = (r.mutate_async Text (Unit {0}) (delete_node serve parse) node.id app).0 in
      let result = handle_delete r serve parse (page, app) in
      ((outcome ≡ ok tt) × Deleted page app result)
      ⊎ ((message : Text) × (outcome ≡ err message) × NotDeleted page app result)
handle_delete_lem r serve parse node page app e =
    rw (handle_delete-some r serve parse node page app e) (
      after_delete_lem node page app
        (r.mutate_async Text (Unit {0}) (delete_node serve parse) node.id app)
        (delete_node-Announces r serve parse node.id app).3)
