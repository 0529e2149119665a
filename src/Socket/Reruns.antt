-- ===== src/Socket/Reruns.antt =====
-- The provider's effect run again (web/src/lib/websocket.tsx), as after a new `url` or in React's
-- development mode, under which web/src/main.tsx puts the application.
use karadul.Base.{
  ℕ, ◌+◌, ◌≡◌, refl, ap, ◌∙◌, ◌≢◌, inl, inr, Bool, true, false, not, Option, none, some, List, [],
  ◌∷◌, arith, if◌then◌else◌, Option-cases, get_elem?, set, count, count-append, count-set, codes,
}
use karadul.Store.{KaradulState}
use karadul.Socket.{
  close_socket, close_effect_ws, connect, Phase, Provider, fresh, effect_setup, effect_cleanup,
  deliver_open, deliver_message, deliver_error, deliver_close, fire, Step, Reach, is_connecting,
  is_opened, is_closing, is_pending, live_sockets, pending_timers, connecting, opened, closing,
  closed, opens, brings, fails, closes, fires, here, next,
}
use karadul.Socket.Steps.{Reach-IsRunning, effect_setup-IsRunning, closes_one}
use karadul.Socket.Leaks.{
  effect_cleanup-IsQuiet, close_socket-SameButSockets, clear_timeout-others, stopped,
}

-- The connections and reconnections under way.
abbrev pub under_way : Provider → ℕ
under_way p = live_sockets p + pending_timers p

-- While mounted, a move of the browser neither starts nor ends one.
pub record Keeps (p q : Provider) : Type 0 where
  pub mounted : q.mounted ≡ true
  pub same : under_way q ≡ under_way p

module _ (sockets : List Phase) (i : ℕ) where
  -- A socket that was live, and is so in its new phase, is counted as before.
  live_as_before :
      (old new : Phase)
      → get_elem? sockets i ≡ some old
      → old ≢ closed
      → new ≢ closed
      → count is_connecting (set sockets i new)
          + count is_opened (set sockets i new)
          + count is_closing (set sockets i new)
        ≡ count is_connecting sockets + count is_opened sockets + count is_closing sockets
  live_as_before old new h p q = ground (
    arith,
    count-set is_connecting sockets i new h,
    count-set is_opened sockets i new h,
    count-set is_closing sockets i new h,
  )

live-close_socket : (i : ℕ) (p : Provider) → live_sockets (close_socket i p) ≡ live_sockets p
unfolding close_socket
live-close_socket i p = elim (Option-cases (get_elem? p.sockets i)) [
  | inl e ↦ rw (close_socket, e)
  | inr (connecting, e) ↦
      rw (close_socket, e) (live_as_before p.sockets i connecting closing e (λ c. cc) (λ c. cc))
  | inr (opened, e) ↦
      rw (close_socket, e) (live_as_before p.sockets i opened closing e (λ c. cc) (λ c. cc))
  | inr (closing, e) ↦ rw (close_socket, e)
  | inr (closed, e) ↦ rw (close_socket, e)
]

live-close_effect_ws :
    (ws : Option ℕ) (p : Provider) → live_sockets (close_effect_ws ws p) ≡ live_sockets p
unfolding close_effect_ws
live-close_effect_ws none p = refl
live-close_effect_ws (some i) p = live-close_socket i p

-- `connect` makes one socket or one timer.
under_way-connect :
    (succeeds : Bool) (p : Provider)
    → p.mounted ≡ true
    → ((connect succeeds p).1.mounted ≡ true) × (under_way (connect succeeds p).1 ≡ under_way p + 1)
unfolding connect
under_way-connect true p m = (
  m,
  omega (
    arith,
    count-append is_connecting p.sockets (connecting ∷ []),
    count-append is_opened p.sockets (connecting ∷ []),
    count-append is_closing p.sockets (connecting ∷ []),
  ),
)
under_way-connect false p m =
    rw m (refl, omega (arith, count-append is_pending p.timers (true ∷ [])))

pub Step-Keeps : {p q : Provider} → Step p q → p.mounted ≡ true → Keeps p q
unfolding deliver_open deliver_message deliver_error deliver_close fire
Step-Keeps {p} (opens i h) m = rw m (record {
  mounted = refl;
  same = omega (arith, live_as_before p.sockets i connecting opened h (λ c. cc) (λ c. cc));
})
Step-Keeps (brings i payload h) m = record { mounted = m; same = refl }
Step-Keeps {p} (fails i phase h k) m =
    let failed : Provider = record p {
      error = some (codes "WebSocket connection failed");
      connected = false;
    } in
    let runs : deliver_error i p ≡ close_socket i failed =
      ap (λ (flag : Bool). if not flag then p else close_socket i failed) m in
    let others = close_socket-SameButSockets i failed in
    record {
      mounted = ap (λ (r : Provider). r.mounted) runs ∙ others.mounted ∙ m;
      same =
          ap under_way runs
          ∙ omega (arith, live-close_socket i failed, ap (count is_pending) others.timers);
    }
Step-Keeps {p} (closes i phase h ne) m = rw m (record {
  mounted = refl;
  same =
      omega
        (arith, closes_one p.sockets i phase h ne, count-append is_pending p.timers (true ∷ []));
})
Step-Keeps {p} (fires i succeeds h) m =
    let one = under_way-connect succeeds (record p { timers = set p.timers i false }) m in
    record { mounted = one.0; same = omega (arith, one.1, count-set is_pending p.timers i false h) }

Reach-Keeps : {p q : Provider} → Reach p q → p.mounted ≡ true → Keeps p q
Reach-Keeps here m = record { mounted = m; same = refl }
Reach-Keeps (next r st) m =
    let before = Reach-Keeps r m in
    let after = Step-Keeps st before.mounted in
    record { mounted = after.mounted; same = after.same ∙ before.same }

pub live-effect_cleanup : (p : Provider) → live_sockets (effect_cleanup p) ≡ live_sockets p
unfolding effect_cleanup
live-effect_cleanup p =
    let kept = clear_timeout-others p.reconnect_timer (record p { mounted = false }) in
    live-close_effect_ws p.effect_ws (stopped p) ∙ rw kept.3

pub under_way-effect_setup :
    (succeeds : Bool) (p : Provider)
    → ((effect_setup succeeds p).mounted ≡ true)
      × (under_way (effect_setup succeeds p) ≡ under_way p + 1)
unfolding effect_setup
under_way-effect_setup succeeds p = under_way-connect succeeds (record p { mounted = true }) refl

-- When the effect is run again, its cleanup first, every moment after has one connection or
-- reconnection under way for the new run, and one more for each socket that was not yet closed at
-- the cleanup: the old socket's `onclose` finds the flag up again and schedules a reconnect of its
-- own.
pub rerun-under_way :
    (first second : Bool) (store : KaradulState) {p q : Provider}
    → Reach (effect_setup first (fresh store)) p
    → Reach (effect_setup second (effect_cleanup p)) q
    → under_way q ≡ live_sockets p + 1
rerun-under_way first second store {p} r rest =
    let v = Reach-IsRunning r (effect_setup-IsRunning first store) in
    let quiet = effect_cleanup-IsQuiet p v in
    let again = under_way-effect_setup second (effect_cleanup p) in
    let kept = Reach-Keeps rest again.0 in
    omega (arith, kept.same, again.1, quiet.no_timer, live-effect_cleanup p)
