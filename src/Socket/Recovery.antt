-- ===== src/Socket/Recovery.antt =====
-- The reconnect of the provider (web/src/lib/websocket.tsx): from a lost connection back to an open one.
use karadul.Base.{
  ◌≤◌, ap, ℕ, suc, ◌+◌, ◌<◌, ◌≡◌, refl, ◌≢◌, inl, inr, Bool, true, none, some, List, [], ◌∷◌, arith,
  length, get_elem?, count, get_elem?-append_length,
}
use karadul.Store.{KaradulState}
use karadul.Socket.{
  Phase, Provider, fresh, effect_setup, deliver_open, deliver_close, fire, Step, Reach,
  is_connecting, is_opened, is_closing, connecting, opened, closing, closed, opens, closes, fires,
  here, next,
}
use karadul.Socket.Steps.{IsRunning, Reach-IsRunning, effect_setup-IsRunning}

-- A socket that is counted as live stands somewhere in the list.
live_socket :
    (sockets : List Phase)
    → 0 < count is_connecting sockets + count is_opened sockets + count is_closing sockets
    → (i : ℕ) × (phase : Phase) × (get_elem? sockets i ≡ some phase) × (phase ≢ closed)
live_socket [] h = absurd (omega arith)
live_socket (connecting ∷ sockets) h = (0, connecting, refl, λ e. cc)
live_socket (opened ∷ sockets) h = (0, opened, refl, λ e. cc)
live_socket (closing ∷ sockets) h = (0, closing, refl, λ e. cc)
live_socket (closed ∷ sockets) h =
    let (i, phase, at, ne) = live_socket sockets (omega (arith, h)) in (suc i, phase, at, ne)

-- The number of moves.
abbrev pub steps : {p q : Provider} → Reach p q → ℕ
steps here = 0
steps (next r s) = suc (steps r)

abbrev Recovers : ℕ → Provider → Type 0
Recovers n p =
    (q : Provider) × (r : Reach p q) × (steps r ≤ n) × (q.connected ≡ true) × (q.error ≡ none)

-- A timer fires, and the socket that it makes opens.
timer-Recovers :
    (p : Provider) (i : ℕ) → p.mounted ≡ true → get_elem? p.timers i ≡ some true → Recovers 2 p
unfolding deliver_open fire
timer-Recovers p i m h =
    let j = length p.sockets in
    let q = fire i true p in
    (
      deliver_open j q,
      next (next here (fires i true h)) (opens j (get_elem?-append_length p.sockets connecting)),
      omega arith,
      rw m refl,
      rw m refl,
    )

prepend : {p q r : Provider} → Step p q → Reach q r → Reach p r
prepend s here = next here s
prepend s (next r t) = next (prepend s r) t

steps-prepend :
    {p q r : Provider} (s : Step p q) (t : Reach q r) → steps (prepend s t) ≡ suc (steps t)
unfolding prepend
steps-prepend s here = refl
steps-prepend s (next r t) = ap suc (steps-prepend s r)

then-Recovers : {p q : Provider} (n : ℕ) → Step p q → Recovers n q → Recovers (suc n) p
then-Recovers n s (q, r, h, c, e) = (q, prepend s r, omega (arith, steps-prepend s r, h), c, e)

running-Recovers : (p : Provider) → IsRunning p → Recovers 3 p
unfolding deliver_close
running-Recovers p v = elim v.timer [
  | inl quiet ↦
      let (i, phase, at, ne) = live_socket p.sockets (omega (arith, v.one)) in
      then-Recovers 2 (closes i phase at ne) (
        timer-Recovers (deliver_close i p) (length p.timers) (rw v.mounted refl)
          (rw v.mounted (get_elem?-append_length p.timers true)))
  | inr (id, held, at) ↦
      let (q, r, h, c, e) = timer-Recovers p id v.mounted at in (q, r, omega (arith, h), c, e)
]

-- From every moment of the first mount three moves of the browser or fewer can lead to a moment at
-- which the flag `connected` is up and no error is shown.
pub connected_again :
    (succeeds : Bool) (store : KaradulState) {p : Provider}
    → Reach (effect_setup succeeds (fresh store)) p
    → (q : Provider) × (r : Reach p q) × (steps r ≤ 3) × (q.connected ≡ true) × (q.error ≡ none)
connected_again succeeds store {p} r =
    running-Recovers p (Reach-IsRunning r (effect_setup-IsRunning succeeds store))
