-- ===== src/Socket/Steps.antt =====
-- One mount of the provider (web/src/lib/websocket.tsx): its connection and its flag.
use karadul.Base.{
  ℕ, ◌+◌, ◌≡◌, refl, ◌≢◌, ◌⊎◌, inl, inr, Bool, true, false, none, some, List, [], ◌∷◌, ◌++◌, arith,
  ◌==◌, if◌then◌else◌, Bool-cases, length, get_elem?, set, count, count-append, count-set,
  get_elem?-append_length, count-pos,
}
use karadul.Store.{KaradulState}
use karadul.Socket.{
  close_socket, Phase, Payload, Provider, fresh, effect_setup, deliver_open, deliver_message,
  deliver_error, deliver_close, fire, Step, Reach, is_connecting, is_opened, is_closing, is_pending,
  live_sockets, pending_timers, connecting, opened, closing, closed, opens, brings, fails, closes,
  fires, here, next,
}

-- What holds between two moves of the browser while the effect runs.
pub record IsRunning (p : Provider) : Type 0 where
  pub mounted : p.mounted ≡ true
  pub one : live_sockets p + pending_timers p ≡ 1
  pub shown : count is_opened p.sockets ≡ (if p.connected then 1 else 0)
  pub no_error : p.connected ≡ true → p.error ≡ none
  pub timer :
      (pending_timers p ≡ 0)
      ⊎ ((id : ℕ) × (p.reconnect_timer ≡ some id) × (get_elem? p.timers id ≡ some true))

deliver_open-IsRunning :
    (p : Provider) (i : ℕ)
    → IsRunning p
    → get_elem? p.sockets i ≡ some connecting
    → IsRunning (deliver_open i p)
unfolding deliver_open
deliver_open-IsRunning p i v h =
    let c = count-set is_connecting p.sockets i opened h in
    let o = count-set is_opened p.sockets i opened h in
    let x = count-set is_closing p.sockets i opened h in
    let zero_pending : pending_timers p ≡ 0 =
      omega (arith, v.one, count-pos is_connecting p.sockets i h refl) in
    rw v.mounted (record {
      mounted = ground arith;
      one = ground arith;
      shown = ground arith;
      no_error = ground arith;
      timer = inl zero_pending;
    })

deliver_message-IsRunning :
    (p : Provider) (payload : Payload) → IsRunning p → IsRunning (deliver_message payload p)
unfolding deliver_message
deliver_message-IsRunning p payload v = record {
  mounted = v.mounted;
  one = v.one;
  shown = v.shown;
  no_error = v.no_error;
  timer = v.timer;
}

deliver_error-IsRunning :
    (p : Provider) (i : ℕ) (phase : Phase)
    → IsRunning p
    → get_elem? p.sockets i ≡ some phase
    → phase ≢ closed
    → IsRunning (deliver_error i p)
unfolding deliver_error
deliver_error-IsRunning p i connecting v h k =
    let c = count-set is_connecting p.sockets i closing h in
    let o = count-set is_opened p.sockets i closing h in
    let x = count-set is_closing p.sockets i closing h in
    let n = count-pos is_connecting p.sockets i h refl in
    rw (v.mounted, close_socket, h)
      (record {
        mounted = ground arith;
        one = ground arith;
        shown = ground (arith, v.one, v.shown);
        no_error = λ e. cc;
        timer = inl (omega (arith, v.one));
      })
deliver_error-IsRunning p i opened v h k =
    let c = count-set is_connecting p.sockets i closing h in
    let o = count-set is_opened p.sockets i closing h in
    let x = count-set is_closing p.sockets i closing h in
    let n = count-pos is_opened p.sockets i h refl in
    rw (v.mounted, close_socket, h)
      (record {
        mounted = ground arith;
        one = ground arith;
        shown = ground (arith, v.one, v.shown);
        no_error = λ e. cc;
        timer = inl (omega (arith, v.one));
      })
deliver_error-IsRunning p i closing v h k =
    let n = count-pos is_closing p.sockets i h refl in
    rw (v.mounted, close_socket, h)
      (record {
        mounted = v.mounted;
        one = v.one;
        shown = omega (arith, v.one);
        no_error = λ e. cc;
        timer = inl (omega (arith, v.one));
      })
deliver_error-IsRunning p i closed v h k = absurd (k refl)

-- The three counts of a list of sockets after one of them closes.
module _ (sockets : List Phase) (i : ℕ) where
  pub closes_one :
      (phase : Phase)
      → get_elem? sockets i ≡ some phase
      → phase ≢ closed
      → count is_connecting (set sockets i closed)
          + count is_opened (set sockets i closed)
          + count is_closing (set sockets i closed)
          + 1
        ≡ count is_connecting sockets + count is_opened sockets + count is_closing sockets
  closes_one phase h ne = ground (
    arith,
    count-set is_connecting sockets i closed h,
    count-set is_opened sockets i closed h,
    count-set is_closing sockets i closed h,
  )

deliver_close-IsRunning :
    (p : Provider) (i : ℕ) (phase : Phase)
    → IsRunning p
    → get_elem? p.sockets i ≡ some phase
    → phase ≢ closed
    → IsRunning (deliver_close i p)
unfolding deliver_close
deliver_close-IsRunning p i phase v h ne =
    let one_less = closes_one p.sockets i phase h ne in
    let pushed = count-append is_pending p.timers (true ∷ []) in
    let last : get_elem? (p.timers ++ true ∷ []) (length p.timers) ≡ some true =
      get_elem?-append_length p.timers true in
    rw v.mounted (record {
      mounted = ground arith;
      one = omega (arith, v.one);
      shown = omega (arith, v.one);
      no_error = λ e. cc;
      timer = inr (length p.timers, refl, last);
    })

-- A timer fires only when no socket is live, so the badge is off.
fire-IsRunning :
    (p : Provider) (i : ℕ) (succeeds : Bool)
    → IsRunning p
    → get_elem? p.timers i ≡ some true
    → IsRunning (fire i succeeds p)
unfolding fire
fire-IsRunning p i true v h =
    let n = count-pos is_pending p.timers i h refl in
    let one_less = count-set is_pending p.timers i false h in
    let c = count-append is_connecting p.sockets (connecting ∷ []) in
    let o = count-append is_opened p.sockets (connecting ∷ []) in
    let x = count-append is_closing p.sockets (connecting ∷ []) in
    record {
      mounted = v.mounted;
      one = omega (arith, v.one);
      shown = ground (arith, v.shown);
      no_error = v.no_error;
      timer = inl (omega (arith, v.one));
    }
fire-IsRunning p i false v h =
    let n = count-pos is_pending p.timers i h refl in
    let one_less = count-set is_pending p.timers i false h in
    let pushed = count-append is_pending (set p.timers i false) (true ∷ []) in
    let off : p.connected ≡ false = ground (arith, v.one, v.shown) in
    let last : get_elem? (set p.timers i false ++ true ∷ []) (length (set p.timers i false))
        ≡ some true =
      get_elem?-append_length (set p.timers i false) true in
    rw v.mounted (record {
      mounted = ground arith;
      one = omega (arith, v.one);
      shown = v.shown;
      no_error = λ e. cc;
      timer = inr (length (set p.timers i false), refl, last);
    })

-- Every move of the browser keeps the running provider in order.
pub Step-IsRunning : {p q : Provider} → Step p q → IsRunning p → IsRunning q
Step-IsRunning {p} (opens i h) v = deliver_open-IsRunning p i v h
Step-IsRunning {p} (brings i payload h) v = deliver_message-IsRunning p payload v
Step-IsRunning {p} (fails i phase h k) v = deliver_error-IsRunning p i phase v h k
Step-IsRunning {p} (closes i phase h ne) v = deliver_close-IsRunning p i phase v h ne
Step-IsRunning {p} (fires i succeeds h) v = fire-IsRunning p i succeeds v h

pub Reach-IsRunning : {p q : Provider} → Reach p q → IsRunning p → IsRunning q
Reach-IsRunning here v = v
Reach-IsRunning (next r st) v = Step-IsRunning st (Reach-IsRunning r v)

pub effect_setup-IsRunning :
    (succeeds : Bool) (store : KaradulState) → IsRunning (effect_setup succeeds (fresh store))
unfolding effect_setup
effect_setup-IsRunning true store = ground arith
effect_setup-IsRunning false store = record {
  mounted = refl;
  one = refl;
  shown = refl;
  no_error = λ e. cc;
  timer = inr (0, refl, refl);
}

-- At every moment of the first mount, whatever the browser has done since, exactly one thing is
-- under way: one socket that is not closed, or one reconnect timer, and never both or neither.
pub first_mount-one :
    (succeeds : Bool) (store : KaradulState) {p : Provider}
    → Reach (effect_setup succeeds (fresh store)) p
    → live_sockets p + pending_timers p ≡ 1
first_mount-one succeeds store r = (Reach-IsRunning r (effect_setup-IsRunning succeeds store)).one

-- At every moment of the first mount the flag `connected` is up exactly when a socket is open, and
-- while it is up no error is shown.
pub first_mount-connected :
    (succeeds : Bool) (store : KaradulState) {p : Provider}
    → Reach (effect_setup succeeds (fresh store)) p
    → (p.connected ≡ (count is_opened p.sockets == 1)) × ((p.connected ≡ false) ⊎ (p.error ≡ none))
first_mount-connected succeeds store {p} r =
    let v = Reach-IsRunning r (effect_setup-IsRunning succeeds store) in
    (
      ground (arith, v.shown),
      elim (Bool-cases p.connected) [ inl up ↦ inr (v.no_error up) | inr down ↦ inl down ],
    )
