-- ===== src/Socket/Leaks.antt =====
-- The cleanup of the provider's effect (web/src/lib/websocket.tsx), and what may still happen after it.
use karadul.Base.{
  ℕ, zero, suc, ◌≤◌, ◌≡◌, refl, ap, ◌∙◌, ◌≢◌, ◌⊎◌, inl, inr, Bool, true, false, Option, none, some,
  List, [], ◌∷◌, arith, get_elem?, set, count, count-set, get_elem?-set_ne, count-pos,
}
use karadul.Store.{KaradulState}
use karadul.Socket.{
  close_socket, clear_timeout, close_effect_ws, Phase, Payload, Provider, fresh, on_message,
  effect_setup, effect_cleanup, deliver_open, deliver_message, deliver_error, deliver_close, fire,
  Step, Reach, is_pending, pending_timers, opened, closing, opens, brings, fails, closes, fires,
  here, next,
}
use karadul.Socket.Steps.{IsRunning, Reach-IsRunning, effect_setup-IsRunning}

-- What holds once the cleanup has run, seen from the provider `p` that it left.
pub record IsQuiet (p q : Provider) : Type 0 where
  pub unmounted : q.mounted ≡ false
  pub no_timer : pending_timers q ≡ 0
  pub same_connected : q.connected ≡ p.connected
  pub same_error : q.error ≡ p.error

Step-IsQuiet : {p q r : Provider} → Step q r → IsQuiet p q → IsQuiet p r
unfolding deliver_open deliver_message deliver_error deliver_close fire
Step-IsQuiet (opens i h) v = ground arith
Step-IsQuiet (brings i payload h) v = ground arith
Step-IsQuiet (fails i phase h k) v = ground arith
Step-IsQuiet (closes i phase h ne) v = ground arith
Step-IsQuiet {q} (fires i succeeds h) v =
    absurd (omega (arith, v.no_timer, count-pos is_pending q.timers i h refl))

Reach-IsQuiet : {p q r : Provider} → Reach q r → IsQuiet p q → IsQuiet p r
Reach-IsQuiet here v = v
Reach-IsQuiet (next r st) v = Step-IsQuiet st (Reach-IsQuiet r v)

-- `ws.close()` changes a socket's phase and nothing else.
pub record SameButSockets (p q : Provider) : Type 0 where
  pub mounted : q.mounted ≡ p.mounted
  pub timers : q.timers ≡ p.timers
  pub connected : q.connected ≡ p.connected
  pub error : q.error ≡ p.error
  pub store : q.store ≡ p.store

pub close_socket-SameButSockets : (i : ℕ) (p : Provider) → SameButSockets p (close_socket i p)
unfolding close_socket
close_socket-SameButSockets i p = ground arith

pub close_effect_ws-SameButSockets :
    (ws : Option ℕ) (p : Provider) → SameButSockets p (close_effect_ws ws p)
unfolding close_effect_ws
close_effect_ws-SameButSockets none p = ground arith
close_effect_ws-SameButSockets (some i) p = close_socket-SameButSockets i p

-- A cleared timer fires no more, and a handle that is no timer's clears nothing.
pub count-set-false :
    (timers : List Bool) (i : ℕ) → count is_pending (set timers i false) ≤ count is_pending timers
count-set-false [] i = omega arith
count-set-false (x ∷ timers) zero = omega arith
count-set-false (x ∷ timers) (suc i) = omega (arith, count-set-false timers i)

pub pending-clear_timeout :
    (handle : Option ℕ) (p : Provider)
    → (pending_timers p ≡ 0) ⊎ ((id : ℕ) × (handle ≡ some id) × (get_elem? p.timers id ≡ some true))
    → pending_timers p ≤ 1
    → pending_timers (clear_timeout handle p) ≡ 0
unfolding clear_timeout
pending-clear_timeout none p (inl z) one = z
pending-clear_timeout (some i) p (inl z) one = omega (arith, count-set-false p.timers i)
pending-clear_timeout none p (inr (id, e, h)) one = cc
pending-clear_timeout (some i) p (inr (id, e, h)) one =
    let same : i ≡ id = cc in
    let at_i : get_elem? p.timers i ≡ some true = rw same h in
    omega (arith, count-set is_pending p.timers i false at_i)

pub clear_timeout-others :
    (handle : Option ℕ) (p : Provider)
    → ((clear_timeout handle p).mounted ≡ p.mounted)
      × ((clear_timeout handle p).connected ≡ p.connected)
      × ((clear_timeout handle p).error ≡ p.error)
      × ((clear_timeout handle p).sockets ≡ p.sockets)
      × ((clear_timeout handle p).store ≡ p.store)
unfolding clear_timeout
clear_timeout-others none p = (refl, refl, refl, refl, refl)
clear_timeout-others (some i) p = (refl, refl, refl, refl, refl)

-- The provider of the cleanup before it closes the effect's socket.
abbrev pub stopped : Provider → Provider
stopped p = clear_timeout p.reconnect_timer (record p { mounted = false })

pub effect_cleanup-IsQuiet : (p : Provider) → IsRunning p → IsQuiet p (effect_cleanup p)
unfolding effect_cleanup
effect_cleanup-IsQuiet p v =
    let same = close_effect_ws-SameButSockets p.effect_ws (stopped p) in
    let kept = clear_timeout-others p.reconnect_timer (record p { mounted = false }) in
    let none_left : pending_timers (stopped p) ≡ 0 =
      pending-clear_timeout p.reconnect_timer (record p { mounted = false }) v.timer
        (omega (arith, v.one)) in
    record {
      unmounted = same.mounted ∙ kept.0;
      no_timer = ap (count is_pending) same.timers ∙ none_left;
      same_connected = same.connected ∙ kept.1;
      same_error = same.error ∙ kept.2;
    }

-- After the cleanup of the first mount no reconnect timer is left and none is ever set again, and
-- whatever the browser still delivers leaves `connected` and `error` as the cleanup found them.
pub cleanup-quiet :
    (succeeds : Bool) (store : KaradulState) {p q : Provider}
    → Reach (effect_setup succeeds (fresh store)) p
    → Reach (effect_cleanup p) q
    → (pending_timers q ≡ 0) × (q.connected ≡ p.connected) × (q.error ≡ p.error)
cleanup-quiet succeeds store {p} r rest =
    let v = Reach-IsRunning r (effect_setup-IsRunning succeeds store) in
    let quiet = Reach-IsQuiet rest (effect_cleanup-IsQuiet p v) in
    (quiet.no_timer, quiet.same_connected, quiet.same_error)

close_socket-other :
    (i j : ℕ) (p : Provider)
    → i ≢ j
    → get_elem? (close_socket i p).sockets j ≡ get_elem? p.sockets j
unfolding close_socket
close_socket-other i j p ne = ground (arith, get_elem?-set_ne p.sockets i j closing ne)

close_effect_ws-other :
    (ws : Option ℕ) (j : ℕ) (p : Provider)
    → ws ≢ some j
    → get_elem? (close_effect_ws ws p).sockets j ≡ get_elem? p.sockets j
unfolding close_effect_ws
close_effect_ws-other none j p ne = refl
close_effect_ws-other (some i) j p ne = close_socket-other i j p (λ e. ne (ap some e))

-- The cleanup closes no socket but the one that the effect itself made: a socket that a reconnect
-- opened stays open, and its next message still changes the store, as it would have before.
pub cleanup-leaks :
    (p : Provider) (i : ℕ) (payload : Payload)
    → get_elem? p.sockets i ≡ some opened
    → p.effect_ws ≢ some i
    → (get_elem? (effect_cleanup p).sockets i ≡ some opened)
      × Step (effect_cleanup p) (deliver_message payload (effect_cleanup p))
      × ((deliver_message payload (effect_cleanup p)).store ≡ on_message payload p.store)
unfolding deliver_message effect_cleanup
cleanup-leaks p i payload h ne =
    let kept = clear_timeout-others p.reconnect_timer (record p { mounted = false }) in
    let still : get_elem? (effect_cleanup p).sockets i ≡ some opened =
      close_effect_ws-other p.effect_ws i (stopped p) ne
      ∙ ap (λ (t : List Phase). get_elem? t i) kept.3
      ∙ h in
    let same = close_effect_ws-SameButSockets p.effect_ws (stopped p) in
    (still, brings i payload still, ap (on_message payload) (same.store ∙ kept.4))
