-- ===== src/Session/Late.antt =====
-- The replies of polls and the messages of the WebSocket in the running dashboard, which both bring the
-- nodes (web/src/lib/api.ts and web/src/lib/websocket.tsx).
use karadul.Base.{
  ◌∙◌, get_elem?-append, ℕ, ◌≡◌, refl, sym, Bool, true, false, some, List, [], ◌∷◌, ◌++◌, arith,
  length, get_elem?, any, Text, get_elem?-append_length,
}
use mathlib.Core.List.{append-nil}
use karadul.Store.{Node, act}
use karadul.Api.{Reply, ok, read_reply}
use karadul.Api.Mutations.Runner.{Runner}
use karadul.Api.Queries.{settle}
use karadul.Socket.{nodes_message}
use karadul.Shell.{Page, ShellEvent, dashboard, topology, nodes, peers, settings}
use karadul.Session
use karadul.Api.Polls.{Coordinator, Poll, poll_nodes, arrive_poll}
use karadul.Session.Cases.{on_page_elim, shell_move_elim}
use karadul.Session.{
  Move, sends, arrives, message, at_shell, at_dashboard, render_settings, at_nodes, at_peers,
  at_topology, at_settings, World, arrived, arrive, same_page, mount_pages, shell_of, with_shell,
  at_dashboard_move, render_settings_move, at_peers_move, at_topology_move, shell_move, on_page,
  at_nodes_move, at_settings_move, step,
}

abbrev pub is_arrival : Move → Bool
is_arrival (arrives c reply time i) = true
is_arrival _ = false

-- The polls under way between two states without a reply: there may be more.
abbrev More : World → World → Type 0
More w after = (more : List Poll) × (after.under_way ≡ w.under_way ++ more)

More-refl : (w : World) → More w w
More-refl w = ([], sym (append-nil w.under_way))

module _ (match : Text → Text → Bool) (r : Runner) where
  on_page-More :
      (page : Page) (f : World → World) (w : World)
      → (f w).under_way ≡ w.under_way
      → More w (on_page match r page f w)
  on_page-More page f w e =
      on_page_elim match r (More w) page f w ([], e ∙ sym (append-nil w.under_way)) (More-refl w)

  shell_move-More :
      (back : Text) (e : ShellEvent) (w : World) → More w (shell_move match r back e w)
  unfolding mount_pages
  shell_move-More back e w = shell_move_elim match r (More w) back e w (More-refl w) (More-refl w)

  step-More : (w : World) (m : Move) → is_arrival m ≡ false → More w (step match r w m)
  unfolding step at_dashboard_move render_settings_move at_nodes_move at_peers_move at_topology_move
      at_settings_move
  step-More w (sends poll) h = (poll ∷ [], refl)
  step-More w (arrives c reply time i) h = absurd (cc)
  step-More w (message payload) h = More-refl w
  step-More w (at_shell back e) h = shell_move-More back e w
  step-More w (at_dashboard q) h = on_page-More dashboard (at_dashboard_move q) w refl
  step-More w (render_settings config reply) h =
      on_page-More settings (render_settings_move config reply) w refl
  step-More w (at_nodes c e) h = on_page-More nodes (at_nodes_move match r c e) w refl
  step-More w (at_peers e) h = on_page-More peers (at_peers_move e) w refl
  step-More w (at_topology known e) h = on_page-More topology (at_topology_move known e) w refl
  step-More w (at_settings c e) h = on_page-More settings (at_settings_move match r c e) w refl

  get_elem?-step :
      (w : World) (m : Move) (i : ℕ) {poll : Poll}
      → is_arrival m ≡ false
      → get_elem? w.under_way i ≡ some poll
      → get_elem? (step match r w m).under_way i ≡ some poll
  get_elem?-step w m i h e =
      let (more, grown) = step-More w m h in rw grown (get_elem?-append w.under_way more i e)

  get_elem?-run :
      (moves : List Move) (w : World) (i : ℕ) {poll : Poll}
      → any is_arrival moves ≡ false
      → get_elem? w.under_way i ≡ some poll
      → get_elem? (Session.run match r w moves).under_way i ≡ some poll
  unfolding Session.run
  get_elem?-run [] w i h e = e
  get_elem?-run (m ∷ moves) w i h e =
      let (first, later) : (is_arrival m ≡ false) × (any is_arrival moves ≡ false) = ground arith in
      get_elem?-run moves (step match r w m) i later (get_elem?-step w m i first e)

  arrives-nodes :
      (w : World) (c : Coordinator) (reply : Reply) (time : Text) (i : ℕ) {polled : List Node}
      → get_elem? w.under_way i ≡ some poll_nodes
      → read_reply c.parse_nodes reply ≡ ok polled
      → (step match r w (arrives c reply time i)).app.store.nodes ≡ polled
  unfolding step arrive arrived arrive_poll settle act
  arrives-nodes w c reply time i e read = rw (e, read) refl

  -- The last to arrive wins: whatever happens between the request of a poll of the nodes and its reply,
  -- as long as no reply of a poll arrives in between and the reply brings nodes, the store has
  -- afterwards the nodes of the reply, also where the WebSocket has pushed newer ones just before
  -- and the store had them already.
  pub late-reply :
      (moves : List Move) (w : World) (c : Coordinator) (reply : Reply) (time : Text)
      (polled pushed : List Node)
      → any is_arrival moves ≡ false
      → read_reply c.parse_nodes reply ≡ ok polled
      → let asked = Session.run match r w (sends poll_nodes ∷ moves) in
        let told = step match r asked (message (nodes_message pushed)) in
        let after = step match r told (arrives c reply time (length w.under_way)) in
        (told.app.store.nodes ≡ pushed) × (after.app.store.nodes ≡ polled)
  unfolding Session.run step act
  late-reply moves w c reply time polled pushed none_arrives read =
      let sent = step match r w (sends poll_nodes) in
      let first : get_elem? sent.under_way (length w.under_way) ≡ some poll_nodes =
        get_elem?-append_length w.under_way poll_nodes in
      let asked = Session.run match r sent moves in
      let told = step match r asked (message (nodes_message pushed)) in
      (
        refl,
        arrives-nodes told c reply time (length w.under_way)
            (get_elem?-run moves sent (length w.under_way) none_arrives first) read,
      )
