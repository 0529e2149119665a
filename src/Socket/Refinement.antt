-- ===== src/Socket/Refinement.antt =====
-- The first mount of the provider (web/src/lib/websocket.tsx) as a machine of four states.
use karadul.Base.{
  ℕ, ◌<◌, ◌≡◌, refl, ap, ◌∙◌, ◌≢◌, Bool, true, false, some, List, [], ◌∷◌, arith, ltb,
  if◌then◌else◌, get_elem?, set, count, count-append, get_elem?-set_self, count-pos,
}
use karadul.Store.{KaradulState}
use karadul.Socket.{
  close_socket, Phase, Provider, fresh, effect_setup, deliver_open, deliver_message, deliver_error,
  deliver_close, fire, Step, Reach, is_connecting, is_opened, is_closing, is_pending,
  pending_timers, connecting, opened, closing, closed, opens, brings, fails, closes, fires, here,
  next,
}
use karadul.Socket.Steps.{IsRunning, Step-IsRunning, Reach-IsRunning, effect_setup-IsRunning}

-- What a reader of the page sees of the connection.
pub data Link : Type 0 where
  trying up ending waiting : Link

-- What the browser does, as the machine sees it.
pub data Signal : Type 0 where
  open_signal message_signal error_signal close_signal : Signal
  timer_signal : Bool → Signal

-- The machine: a socket that is tried opens, fails or closes; a failed one closes; after a close the
-- machine waits for its timer, which tries a new socket or, where that throws, waits again.
abbrev pub link_after : Signal → Link → Link
link_after open_signal trying = up
link_after error_signal trying = ending
link_after error_signal up = ending
link_after close_signal l = waiting
link_after (timer_signal true) waiting = trying
link_after _ l = l

-- The state after some signals, the latest first.
abbrev pub run_link : Link → List Signal → Link
run_link l [] = l
run_link l (signal ∷ signals) = link_after signal (run_link l signals)

abbrev pub signal_of : {p q : Provider} → Step p q → Signal
signal_of (opens i h) = open_signal
signal_of (brings i payload h) = message_signal
signal_of (fails i phase h k) = error_signal
signal_of (closes i phase h ne) = close_signal
signal_of (fires i succeeds h) = timer_signal succeeds

abbrev pub signals : {p q : Provider} → Reach p q → List Signal
signals here = []
signals (next r s) = signal_of s ∷ signals r

abbrev pub is_up : Link → Bool
is_up up = true
is_up _ = false

abbrev pub link_of : Provider → Link
link_of p =
    if ltb 0 (count is_connecting p.sockets)
    then trying
    else if ltb 0 (count is_opened p.sockets)
    then up
    else if ltb 0 (count is_closing p.sockets)
    then ending
    else waiting

abbrev pub first_link : Bool → Link
first_link true = trying
first_link false = waiting

abbrev marks : Link → Provider → ℕ
marks trying p = count is_connecting p.sockets
marks up p = count is_opened p.sockets
marks ending p = count is_closing p.sockets
marks waiting p = pending_timers p

link_of-marks : (p : Provider) (l : Link) → IsRunning p → 0 < marks l p → link_of p ≡ l
link_of-marks p trying v h = ground (arith, v.one)
link_of-marks p up v h = ground (arith, v.one)
link_of-marks p ending v h = ground (arith, v.one)
link_of-marks p waiting v h = ground (arith, v.one)

-- A move of the browser does to the state what its signal does.
Follows : Provider → Signal → Provider → Type 0
Follows p signal q = link_of q ≡ link_after signal (link_of p)

marks-Follows :
    (p q : Provider) (l : Link) (signal : Signal)
    → IsRunning p
    → IsRunning q
    → 0 < marks l p
    → 0 < marks (link_after signal l) q
    → Follows p signal q
unfolding Follows
marks-Follows p q l signal v w a b =
    rw (link_of-marks p l v a, link_of-marks q (link_after signal l) w b) refl

opens-Follows :
    (p : Provider) (i : ℕ)
    → IsRunning p
    → IsRunning (deliver_open i p)
    → get_elem? p.sockets i ≡ some connecting
    → Follows p open_signal (deliver_open i p)
unfolding deliver_open
opens-Follows p i v w h =
    marks-Follows p (deliver_open i p) trying open_signal v w
      (count-pos is_connecting p.sockets i h refl)
      (rw v.mounted (
        count-pos is_opened (set p.sockets i opened) i (get_elem?-set_self p.sockets i opened h)
          refl))

-- A socket that fails is closing.
closing-deliver_error :
    (p : Provider) (i : ℕ) (phase : Phase)
    → IsRunning p
    → get_elem? p.sockets i ≡ some phase
    → phase ≢ closed
    → 0 < count is_closing (deliver_error i p).sockets
unfolding deliver_error
closing-deliver_error p i connecting v h k =
    rw (v.mounted, close_socket, h)
      (count-pos is_closing (set p.sockets i closing) i (get_elem?-set_self p.sockets i closing h)
        refl)
closing-deliver_error p i opened v h k =
    rw (v.mounted, close_socket, h)
      (count-pos is_closing (set p.sockets i closing) i (get_elem?-set_self p.sockets i closing h)
        refl)
closing-deliver_error p i closing v h k =
    rw (v.mounted, close_socket, h) (count-pos is_closing p.sockets i h refl)
closing-deliver_error p i closed v h k = absurd (k refl)

fails-Follows :
    (p : Provider) (i : ℕ) (phase : Phase)
    → IsRunning p
    → IsRunning (deliver_error i p)
    → get_elem? p.sockets i ≡ some phase
    → phase ≢ closed
    → Follows p error_signal (deliver_error i p)
fails-Follows p i connecting v w h k =
    marks-Follows p (deliver_error i p) trying error_signal v w
      (count-pos is_connecting p.sockets i h refl) (closing-deliver_error p i connecting v h k)
fails-Follows p i opened v w h k =
    marks-Follows p (deliver_error i p) up error_signal v w (count-pos is_opened p.sockets i h refl)
      (closing-deliver_error p i opened v h k)
fails-Follows p i closing v w h k =
    marks-Follows p (deliver_error i p) ending error_signal v w
      (count-pos is_closing p.sockets i h refl) (closing-deliver_error p i closing v h k)
fails-Follows p i closed v w h k = absurd (k refl)

closes-Follows :
    (p : Provider) (i : ℕ)
    → IsRunning p
    → IsRunning (deliver_close i p)
    → Follows p close_signal (deliver_close i p)
unfolding deliver_close Follows
closes-Follows p i v w =
    link_of-marks (deliver_close i p) waiting w
      (rw v.mounted (omega (arith, count-append is_pending p.timers (true ∷ []))))

fires-Follows :
    (p : Provider) (i : ℕ) (succeeds : Bool)
    → IsRunning p
    → IsRunning (fire i succeeds p)
    → get_elem? p.timers i ≡ some true
    → Follows p (timer_signal succeeds) (fire i succeeds p)
unfolding fire
fires-Follows p i true v w h =
    marks-Follows p (fire i true p) waiting (timer_signal true) v w
      (count-pos is_pending p.timers i h refl)
      (omega (arith, count-append is_connecting p.sockets (connecting ∷ [])))
fires-Follows p i false v w h =
    marks-Follows p (fire i false p) waiting (timer_signal false) v w
      (count-pos is_pending p.timers i h refl)
      (rw v.mounted (omega (arith, count-append is_pending (set p.timers i false) (true ∷ []))))

Step-Follows :
    {p q : Provider} (s : Step p q) → IsRunning p → IsRunning q → Follows p (signal_of s) q
unfolding deliver_message Follows
Step-Follows {p} (opens i h) v w = opens-Follows p i v w h
Step-Follows (brings i payload h) v w = refl
Step-Follows {p} (fails i phase h k) v w = fails-Follows p i phase v w h k
Step-Follows {p} (closes i phase h ne) v w = closes-Follows p i v w
Step-Follows {p} (fires i succeeds h) v w = fires-Follows p i succeeds v w h

link_of-Reach :
    {p q : Provider} (r : Reach p q) → IsRunning p → link_of q ≡ run_link (link_of p) (signals r)
unfolding Follows
link_of-Reach here v = refl
link_of-Reach (next r s) v =
    let w = Reach-IsRunning r v in
    Step-Follows s w (Step-IsRunning s w) ∙ ap (link_after (signal_of s)) (link_of-Reach r v)

is_up-connected : (p : Provider) → IsRunning p → p.connected ≡ is_up (link_of p)
is_up-connected p v = ground (arith, v.one, v.shown)

first_link_lem :
    (succeeds : Bool) (store : KaradulState)
    → link_of (effect_setup succeeds (fresh store)) ≡ first_link succeeds
unfolding effect_setup
first_link_lem true store = refl
first_link_lem false store = refl

-- Whatever the browser has done in the first mount, the provider stands in the state that the machine
-- of four states computes from the signals of the browser, beginning with `trying`, or with `waiting`
-- when no socket could be made; and the flag `connected` is up exactly where that state is `up`.
pub provider-run_link :
    (succeeds : Bool) (store : KaradulState) {p : Provider}
    (r : Reach (effect_setup succeeds (fresh store)) p)
    → (link_of p ≡ run_link (first_link succeeds) (signals r))
      × (p.connected ≡ is_up (run_link (first_link succeeds) (signals r)))
provider-run_link succeeds store {p} r =
    let v = effect_setup-IsRunning succeeds store in
    let first = first_link_lem succeeds store in
    let same : link_of p ≡ run_link (first_link succeeds) (signals r) =
      link_of-Reach r v ∙ ap (λ (l : Link). run_link l (signals r)) first in
    (same, is_up-connected p (Reach-IsRunning r v) ∙ ap is_up same)
