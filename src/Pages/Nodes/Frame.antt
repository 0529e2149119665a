-- ===== src/Pages/Nodes/Frame.antt =====
-- What the events of the nodes page (web/src/pages/nodes.tsx) leave as it is.
use karadul.Base.{
  ◌≡◌, refl, ap, ◌∙◌, ◌⊎◌, inl, inr, Bool, true, false, Option, none, some, [], ◌∷◌, ◌++◌, Text,
  codes,
}
use karadul.Store.{Node}
use karadul.Api.{make_request, Request, Reply, Outcome, ok, err, App}
use karadul.Api.Guarded.{Keeps, Keeps-refl, announced-Keeps, toasted-Keeps}
use karadul.Api.Mutations.{delete_node, nodes_key, delete_options}
use karadul.Api.Mutations.Announce.{delete_node-Announces, delete_node-requests}
use karadul.Api.Mutations.Runner.{Runner}
use karadul.Pages.Nodes.{NodesPage, after_delete, handle_delete}
use karadul.Pages.Nodes.Deletion.{handle_delete-some}
use karadul.Pages.Nodes.Rendering.{
  NodesEvent, refetch, export_csv, export_json, close_dialog, confirm_delete, search, view_details,
  ask_delete,
}
use karadul.Pages.Nodes.Offers.{nodes_update}

-- The event that chooses the node of the details.
abbrev pub chooses : NodesEvent → Bool
chooses (view_details node) = true
chooses _ = false

after_delete-Keeps :
    (node : Node) (page : NodesPage) (app : App) (result : Outcome (Unit {0}) × App)
    → Keeps app result.1
    → Keeps app (after_delete node result page).1
unfolding after_delete
after_delete-Keeps node page app (ok value, after) k = toasted-Keeps _ k
after_delete-Keeps node page app (err message, after) k = toasted-Keeps _ k

module _ (r : Runner) (serve : Request → Reply) (parse : Text → Outcome (Unit {0})) where
  handle_delete-Keeps :
      (target : Option Node) (page : NodesPage) (app : App)
      → page.node_to_delete ≡ target
      → Keeps app (handle_delete r serve parse (page, app)).1
  unfolding handle_delete
  handle_delete-Keeps none page app e = rw e (Keeps-refl app)
  handle_delete-Keeps (some node) page app e =
      rw (handle_delete-some r serve parse node page app e) (
        after_delete-Keeps node page app (r.mutate_async _ _ (delete_node serve parse) node.id app)
          (announced-Keeps r (delete_node serve parse) nodes_key node.id app
            (delete_node-Announces r serve parse)))

  pub nodes_update-Keeps :
      (e : NodesEvent) (page : NodesPage) (app : App)
      → chooses e ≡ false
      → Keeps app (nodes_update r serve parse e (page, app)).1
  unfolding nodes_update
  nodes_update-Keeps refetch page app h = Keeps-refl app
  nodes_update-Keeps export_csv page app h = Keeps-refl app
  nodes_update-Keeps export_json page app h = Keeps-refl app
  nodes_update-Keeps close_dialog page app h = Keeps-refl app
  nodes_update-Keeps confirm_delete page app h =
      handle_delete-Keeps page.node_to_delete page app refl
  nodes_update-Keeps (search query) page app h = Keeps-refl app
  nodes_update-Keeps (view_details node) page app h = absurd (cc)
  nodes_update-Keeps (ask_delete node) page app h = Keeps-refl app

-- An event that chooses is a request for details.
pub chooses-cases :
    (e : NodesEvent) → (chooses e ≡ false) ⊎ ((node : Node) × (e ≡ view_details node))
chooses-cases refetch = inl refl
chooses-cases export_csv = inl refl
chooses-cases export_json = inl refl
chooses-cases close_dialog = inl refl
chooses-cases confirm_delete = inl refl
chooses-cases (search query) = inl refl
chooses-cases (ask_delete node) = inl refl
chooses-cases (view_details node) = inr (node, refl)

after_delete-requests :
    (node : Node) (page : NodesPage) (result : Outcome (Unit {0}) × App)
    → (after_delete node result page).1.requests ≡ result.1.requests
unfolding after_delete
after_delete-requests node page (ok value, after) = refl
after_delete-requests node page (err message, after) = refl

-- The dialog closes or stays as it was.
after_delete-target :
    (node : Node) (page : NodesPage) (result : Outcome (Unit {0}) × App)
    → ((after_delete node result page).0.node_to_delete ≡ none)
      ⊎ ((after_delete node result page).0 ≡ page)
unfolding after_delete
after_delete-target node page (ok value, after) = inl refl
after_delete-target node page (err message, after) = inr refl

module _ (r : Runner) (serve : Request → Reply) (parse : Text → Outcome (Unit {0})) where
  handle_delete-requests :
      (target : Option Node) (page : NodesPage) (app : App)
      → page.node_to_delete ≡ target
      → let after = handle_delete r serve parse (page, app) in
        ((after.1.requests ≡ app.requests)
          ⊎ ((node : Node) × (page.node_to_delete ≡ some node)
              × (after.1.requests
                  ≡ app.requests
                    ++ make_request (codes "/v1/admin/nodes/" ++ node.id) delete_options app.storage
                      ∷ [])))
        × ((after.0.node_to_delete ≡ none) ⊎ (after.0 ≡ page))
  unfolding handle_delete
  handle_delete-requests none page app e = (inl (rw e refl), inr (rw e refl))
  handle_delete-requests (some node) page app e =
      let result = r.mutate_async Text (Unit {0}) (delete_node serve parse) node.id app in
      rw (handle_delete-some r serve parse node page app e) (
        inr (
          node,
          e,
          after_delete-requests node page result ∙ delete_node-requests r serve parse node.id app,
        ),
        after_delete-target node page result,
      )

  -- An event sends nothing, or the deletion of the node that the dialog asks about.
  pub nodes_update-requests :
      (e : NodesEvent) (page : NodesPage) (app : App)
      → let after = nodes_update r serve parse e (page, app) in
        (after.1.requests ≡ app.requests)
        ⊎ ((node : Node) × (page.node_to_delete ≡ some node)
            × (after.1.requests
                ≡ app.requests
                  ++ make_request (codes "/v1/admin/nodes/" ++ node.id) delete_options app.storage
                    ∷ []))
  unfolding nodes_update
  nodes_update-requests refetch page app = inl refl
  nodes_update-requests export_csv page app = inl refl
  nodes_update-requests export_json page app = inl refl
  nodes_update-requests close_dialog page app = inl refl
  nodes_update-requests confirm_delete page app =
      (handle_delete-requests page.node_to_delete page app refl).0
  nodes_update-requests (search query) page app = inl refl
  nodes_update-requests (view_details node) page app = inl refl
  nodes_update-requests (ask_delete node) page app = inl refl

  -- The dialog is closed, or asks about the same node, or about the one that the event asks to delete.
  pub nodes_update-target :
      (e : NodesEvent) (page : NodesPage) (app : App)
      → let after = (nodes_update r serve parse e (page, app)).0 in
        (after.node_to_delete ≡ none)
        ⊎ (after.node_to_delete ≡ page.node_to_delete)
        ⊎ ((node : Node) × (e ≡ ask_delete node) × (after.node_to_delete ≡ some node))
  unfolding nodes_update
  nodes_update-target refetch page app = inr (inl refl)
  nodes_update-target export_csv page app = inr (inl refl)
  nodes_update-target export_json page app = inr (inl refl)
  nodes_update-target close_dialog page app = inl refl
  nodes_update-target confirm_delete page app =
      elim (handle_delete-requests page.node_to_delete page app refl).1 [
        | inl closed ↦ inl closed
        | inr same ↦ inr (inl (ap NodesPage.node_to_delete same))
      ]
  nodes_update-target (search query) page app = inr (inl refl)
  nodes_update-target (view_details node) page app = inr (inl refl)
  nodes_update-target (ask_delete node) page app = inr (inr (node, refl, refl))
