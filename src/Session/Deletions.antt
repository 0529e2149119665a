-- ===== src/Session/Deletions.antt =====
-- The deletions that the running dashboard asks the coordinator for.
use mathlib.Core.List.{append-nil}
use karadul.Base.{
  ℕ, ◌≡◌, refl, sym, ap, ◌∙◌, inl, inr, Bool, true, none, some, List, [], ◌∷◌, ◌++◌, arith, Text,
  codes, text_eq_refl,
}
use karadul.Store.{Node}
use karadul.Api.{Reply, App, make_request}
use karadul.Api.Mutations.Runner.{Runner}
use karadul.Shell.{Page, ShellEvent, shell_update, dashboard, topology, nodes, peers, settings}
use karadul.Pages.Nodes.Rendering.{NodesEvent}
use karadul.Pages.Nodes.Frame.{nodes_update-requests, nodes_update-target}
use karadul.Pages.Settings.Events.{SettingsEvent, SettingsState}
use karadul.Pages.Settings.Frame.{settings_update-requests}
use karadul.Session
use karadul.Session.Polls.{arrive-Arrived, arrive-nodes_page}
use karadul.Api.Polls.{Coordinator, Poll, send_poll}
use karadul.Session.Cases.{on_page_elim, shell_move_elim}
use karadul.Session.{
  Move, sends, arrives, message, at_shell, at_dashboard, render_settings, at_nodes, at_peers,
  at_topology, at_settings, World, arrive, same_page, mount_pages, shell_of, with_shell,
  at_dashboard_move, render_settings_move, at_peers_move, at_topology_move, shell_move, on_page,
  at_nodes_move, at_settings_move, step,
}
use karadul.Session.Justified.{
  asked_by, clicked_by, asked_nodes, clicked_keys, member, member-left, member-right, Deletes,
  IsAsked, nothing-Deletes, Deletes-trans, other_method, post_differs, put_differs,
}

module _ (match : Text → Text → Bool) (r : Runner) (ids keys : List Text) where
  -- One move of a session that asks for these nodes and keys at most.
  Good : World → World → Type 0
  Good w after = Deletes ids keys w.app after.app × IsAsked ids after

  still-Good : (w : World) → IsAsked ids w → Good w w
  unfolding Good
  still-Good w asked = (nothing-Deletes ids keys w.app w.app refl, asked)

  on_page-Good :
      (page : Page) (f : World → World) (w : World)
      → IsAsked ids w
      → Good w (f w)
      → Good w (on_page match r page f w)
  on_page-Good page f w asked good =
      on_page_elim match r (Good w) page f w good (still-Good w asked)

  shell_move-Good :
      (back : Text) (e : ShellEvent) (w : World)
      → IsAsked ids w
      → Good w (shell_move match r back e w)
  unfolding Good mount_pages
  shell_move-Good back e w asked =
      let kept =
        nothing-Deletes ids keys w.app
          (record w.app { storage = (shell_update back e (shell_of w)).storage }) refl in
      shell_move_elim match r (Good w) back e w (kept, asked) (kept, inl refl)

  -- The node that the dialog is open for is among those asked.
  target-member :
      (w : World) (node : Node)
      → IsAsked ids w
      → w.nodes_page.node_to_delete ≡ some node
      → member node.id ids ≡ true
  target-member w node (inl closed) e = absurd (cc)
  target-member w node (inr (other, open_for, asked)) e =
      let same : node ≡ other = cc in rw same asked

  nodes_event-Good :
      (c : Coordinator) (e : NodesEvent) (w : World)
      → IsAsked ids w
      → ((id : Text) → member id (asked_by (at_nodes c e)) ≡ true → member id ids ≡ true)
      → Good w (at_nodes_move match r c e w)
  unfolding Good at_nodes_move make_request
  nodes_event-Good c e w asked covered = (
    elim (nodes_update-requests r c.serve c.parse e w.nodes_page w.app) [
      | inl quiet ↦ nothing-Deletes ids keys w.app (at_nodes_move match r c e w).app quiet
      | inr (node, open_for, sent) ↦
          (_, sent, (inr (inl (node.id, refl, target-member w node asked open_for)), tt))
    ],
    elim (nodes_update-target r c.serve c.parse e w.nodes_page w.app) [
      | inl closed ↦ inl closed
      | inr (inl same) ↦ elim asked [
        | inl closed ↦ inl (same ∙ closed)
        | inr (node, open_for, known) ↦ inr (node, same ∙ open_for, known)
      ]
      | inr (inr (node, asks, open_for)) ↦
          inr (node, open_for, covered node.id (rw asks (ground (arith, text_eq_refl node.id))))
    ],
  )

  settings_event-Good :
      (c : Coordinator) (e : SettingsEvent) (w : World)
      → IsAsked ids w
      → ((id : Text) → member id (clicked_by (at_settings c e)) ≡ true → member id keys ≡ true)
      → Good w (at_settings_move match r c e w)
  unfolding Good at_settings_move make_request
  settings_event-Good c e w asked covered =
      let s : SettingsState = record { tab = w.tab; page = w.settings_page; app = w.app } in
      (
        elim (settings_update-requests r c.serve c.parse c.parse_key e s) [
          | inl quiet ↦ nothing-Deletes ids keys w.app (at_settings_move match r c e w).app quiet
          | inr (path, options, sent, inl posts) ↦ (
            _,
            sent,
            (inl (other_method path options w.app (codes "POST") posts post_differs), tt),
          )
          | inr (path, options, sent, inr (inl puts)) ↦
              (_, sent, (inl (other_method path options w.app (codes "PUT") puts put_differs), tt))
          | inr (path, options, sent, inr (inr (id, deletes, there))) ↦ (
            _,
            sent,
            (
              inr (
                  inr
                    (id, rw there refl, covered id (rw deletes (ground (arith, text_eq_refl id))))),
              tt,
            ),
          )
        ],
        asked,
      )

  sends-Good :
      (poll : Poll) (w : World)
      → IsAsked ids w
      → Good w (record w { app = send_poll poll w.app; under_way = w.under_way ++ poll ∷ [] })
  unfolding Good send_poll make_request
  sends-Good poll w asked = ((_, refl, (inl (λ h. absurd (cc)), tt)), asked)

  arrives-Good :
      (c : Coordinator) (reply : Reply) (time : Text) (i : ℕ) (w : World)
      → IsAsked ids w
      → Good w (arrive c reply time i w)
  unfolding Good
  arrives-Good c reply time i w asked =
      let (actions, e, quiet) = arrive-Arrived c reply time i w in
      (
        nothing-Deletes ids keys w.app (arrive c reply time i w).app (ap App.requests e),
        rw (arrive-nodes_page c reply time i w) asked,
      )

  step-Good :
      (w : World) (m : Move)
      → IsAsked ids w
      → ((id : Text) → member id (asked_by m) ≡ true → member id ids ≡ true)
      → ((id : Text) → member id (clicked_by m) ≡ true → member id keys ≡ true)
      → Good w (step match r w m)
  unfolding Good step at_dashboard_move render_settings_move at_peers_move at_topology_move
  step-Good w (sends poll) asked n k = sends-Good poll w asked
  step-Good w (arrives c reply time i) asked n k = arrives-Good c reply time i w asked
  step-Good w (message payload) asked n k = (([], sym (append-nil w.app.requests), tt), asked)
  step-Good w (at_shell back e) asked n k = shell_move-Good back e w asked
  step-Good w (at_dashboard q) asked n k =
      on_page-Good dashboard (at_dashboard_move q) w asked
        (([], sym (append-nil w.app.requests), tt), asked)
  step-Good w (render_settings config reply) asked n k =
      on_page-Good settings (render_settings_move config reply) w asked (still-Good w asked)
  step-Good w (at_nodes c e) asked n k =
      on_page-Good nodes (at_nodes_move match r c e) w asked (nodes_event-Good c e w asked n)
  step-Good w (at_peers e) asked n k =
      on_page-Good peers (at_peers_move e) w asked (still-Good w asked)
  step-Good w (at_topology known e) asked n k =
      on_page-Good topology (at_topology_move known e) w asked
        (([], sym (append-nil w.app.requests), tt), asked)
  step-Good w (at_settings c e) asked n k =
      on_page-Good settings (at_settings_move match r c e) w asked
        (settings_event-Good c e w asked k)

  run-Good :
      (moves : List Move) (w : World)
      → IsAsked ids w
      → ((id : Text) → member id (asked_nodes moves) ≡ true → member id ids ≡ true)
      → ((id : Text) → member id (clicked_keys moves) ≡ true → member id keys ≡ true)
      → Deletes ids keys w.app (Session.run match r w moves).app
  unfolding Good Session.run
  run-Good [] w asked n k = nothing-Deletes ids keys w.app w.app refl
  run-Good (m ∷ moves) w asked n k =
      let next = step match r w m in
      let (first, still) =
        step-Good w m asked (λ id h. n id (member-left id (asked_by m) (asked_nodes moves) h))
          (λ id h. k id (member-left id (clicked_by m) (clicked_keys moves) h)) in
      Deletes-trans ids keys w.app next.app (Session.run match r next moves).app first (
        run-Good moves next still
          (λ id h. n id (member-right id (asked_by m) (asked_nodes moves) h))
          (λ id h. k id (member-right id (clicked_by m) (clicked_keys moves) h)))

module _ (match : Text → Text → Bool) (r : Runner) where
  -- From a world whose dialog is closed, the dashboard asks the coordinator to delete no other node than
  -- those that the user has asked to delete in the session, and no other key than those whose deletion
  -- the user has clicked: every request of the session with the method `DELETE` is for one of them.
  pub run-Deletes :
      (moves : List Move) (w : World)
      → w.nodes_page.node_to_delete ≡ none
      → Deletes (asked_nodes moves) (clicked_keys moves) w.app (Session.run match r w moves).app
  run-Deletes moves w closed =
      run-Good match r (asked_nodes moves) (clicked_keys moves) moves w (inl closed) (λ id h. h)
        (λ id h. h)
