-- ===== src/Pages/Nodes/Pending.antt =====
-- The deletion of a node (`handleDelete` of web/src/pages/nodes.tsx) in its two halves, before and after the
-- reply of the coordinator, between which the user goes on with the page.
use karadul.Base.{
  ◌≡◌, refl, sym, ap, ◌∙◌, Bool, true, false, some, List, [], ◌∷◌, ◌++◌, foldl, arith, all, Text,
  codes,
}
use karadul.Store.{Node}
use karadul.Api.{Request, Reply, Outcome, ok, err, App, make_request, read_reply, fetch_api}
use karadul.Api.Mutations.{Mutation, delete_options, delete_node}
use karadul.Api.Mutations.Runner.{Runner}
use karadul.Pages.Nodes.{NodesPage, after_delete, handle_delete}
use karadul.Pages.Nodes.Deletion.{handle_delete-some}
use karadul.Pages.Nodes.Rendering.{
  NodesEvent, refetch, export_csv, export_json, close_dialog, confirm_delete, search, view_details,
  ask_delete,
}
use karadul.Pages.Nodes.Offers.{nodes_update}

-- The request for the deletion of a node.
unfoldable pub delete_request : Node → App → Request
unfolding make_request
delete_request node app =
    make_request (codes "/v1/admin/nodes/" ++ node.id) delete_options app.storage

-- `handleDelete()` up to its `await`, for the node of the dialog.
unfoldable pub start_delete : Node → App → App
unfolding delete_request
start_delete node app = record app { requests = app.requests ++ delete_request node app ∷ [] }

-- What React Query calls when the mutation has settled.
abbrev pub notify : Mutation Text (Unit {0}) → Outcome (Unit {0}) → App → Outcome (Unit {0}) × App
notify m (ok value) app = (ok value, m.on_success app)
notify m (err message) app = (err message, m.on_error message app)

-- The rest of `handleDelete()`, for the node that it was called with.
unfoldable pub finish_delete :
    Mutation Text (Unit {0}) → Node → Outcome (Unit {0}) → NodesPage × App → NodesPage × App
unfolding after_delete
finish_delete m node outcome (page, app) = after_delete node (notify m outcome app) page

-- The events that open no dialog and start no deletion.
abbrev pub is_quiet : NodesEvent → Bool
is_quiet confirm_delete = false
is_quiet (ask_delete node) = false
is_quiet _ = true

module _ (r : Runner) (serve : Request → Reply) (parse : Text → Outcome (Unit {0})) where
  mutate-notify :
      (node : Node) (app : App) (outcome : Outcome (Unit {0}))
      → read_reply parse (serve (delete_request node app)) ≡ outcome
      → r.mutate_async Text (Unit {0}) (delete_node serve parse) node.id app
        ≡ notify (delete_node serve parse) outcome (start_delete node app)
  unfolding delete_node start_delete delete_request fetch_api
  mutate-notify node app (ok value) e =
      r.succeeds Text (Unit {0}) (delete_node serve parse) node.id app (rw e refl)
  mutate-notify node app (err message) e =
      r.fails Text (Unit {0}) (delete_node serve parse) node.id app (rw e refl)

  -- If nothing happens before the reply, the handler of the deletion does what its two halves do one
  -- after the other, with the reply of the coordinator to the request of the first.
  pub handle_delete-halves :
      (node : Node) (page : NodesPage) (app : App)
      → page.node_to_delete ≡ some node
      → handle_delete r serve parse (page, app)
        ≡ finish_delete
            (delete_node serve parse)
            node
            (read_reply parse (serve (delete_request node app)))
            (page, start_delete node app)
  unfolding finish_delete
  handle_delete-halves node page app e =
      handle_delete-some r serve parse node page app e
      ∙ ap (λ result. after_delete node result page) (mutate-notify node app _ refl)

  abbrev pub next_page : NodesPage × App → NodesEvent → NodesPage × App
  next_page s e = nodes_update r serve parse e s

  finish_delete-nodes_update :
      (e : NodesEvent) (node : Node) (outcome : Outcome (Unit {0})) (page : NodesPage) (app : App)
      → is_quiet e ≡ true
      → finish_delete
          (delete_node serve parse)
          node
          outcome
          (nodes_update r serve parse e (page, app))
        ≡ nodes_update r serve parse e
            (finish_delete (delete_node serve parse) node outcome (page, app))
  unfolding finish_delete nodes_update delete_node
  finish_delete-nodes_update confirm_delete node outcome page app h = absurd (cc)
  finish_delete-nodes_update (ask_delete other) node outcome page app h = absurd (cc)
  finish_delete-nodes_update refetch node (ok value) page app h = refl
  finish_delete-nodes_update refetch node (err message) page app h = refl
  finish_delete-nodes_update export_csv node (ok value) page app h = refl
  finish_delete-nodes_update export_csv node (err message) page app h = refl
  finish_delete-nodes_update export_json node (ok value) page app h = refl
  finish_delete-nodes_update export_json node (err message) page app h = refl
  finish_delete-nodes_update close_dialog node (ok value) page app h = refl
  finish_delete-nodes_update close_dialog node (err message) page app h = refl
  finish_delete-nodes_update (search query) node (ok value) page app h = refl
  finish_delete-nodes_update (search query) node (err message) page app h = refl
  finish_delete-nodes_update (view_details other) node (ok value) page app h = refl
  finish_delete-nodes_update (view_details other) node (err message) page app h = refl

  finish_delete-foldl :
      (events : List NodesEvent) (node : Node) (outcome : Outcome (Unit {0})) (s : NodesPage × App)
      → all is_quiet events ≡ true
      → finish_delete (delete_node serve parse) node outcome (foldl next_page s events)
        ≡ foldl next_page (finish_delete (delete_node serve parse) node outcome s) events
  finish_delete-foldl [] node outcome s h = refl
  finish_delete-foldl (e ∷ events) node outcome (page, app) h =
      let (first, later) : (is_quiet e ≡ true) × (all is_quiet events ≡ true) = ground arith in
      finish_delete-foldl events node outcome (nodes_update r serve parse e (page, app)) later
      ∙ ap (λ t. foldl next_page t events)
          (finish_delete-nodes_update e node outcome page app first)

  -- A deletion that takes its time is the same as one that is over at once: if the user, while the reply
  -- is awaited, only searches, looks at details, exports, fetches again or closes the dialog, the page
  -- and the state end as if the handler had run to its end first and the user had done all this then.
  pub halves-handle_delete :
      (events : List NodesEvent) (node : Node) (page : NodesPage) (app : App)
      → page.node_to_delete ≡ some node
      → all is_quiet events ≡ true
      → let outcome = read_reply parse (serve (delete_request node app)) in
        finish_delete
          (delete_node serve parse)
          node
          outcome
          (foldl next_page (page, start_delete node app) events)
        ≡ foldl next_page (handle_delete r serve parse (page, app)) events
  halves-handle_delete events node page app e quiet =
      finish_delete-foldl events node (read_reply parse (serve (delete_request node app)))
        (page, start_delete node app) quiet
      ∙ ap (λ t. foldl next_page t events) (sym (handle_delete-halves node page app e))
