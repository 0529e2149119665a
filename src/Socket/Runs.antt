-- ===== src/Socket/Runs.antt =====
-- Any number of runs of the provider's effect (web/src/lib/websocket.tsx), one after another.
use karadul.Base.{ℕ, suc, ◌≤◌, ◌≡◌, ap, inl, inr, Bool, true, arith, Option-cases, count}
use karadul.Store.{KaradulState}
use karadul.Socket.{
  clear_timeout, Provider, fresh, effect_setup, effect_cleanup, Step, is_pending, pending_timers,
}
use karadul.Socket.Leaks.{close_effect_ws-SameButSockets, count-set-false, stopped}
use karadul.Socket.Reruns.{under_way, Step-Keeps, under_way-effect_setup, live-effect_cleanup}

-- The provider in the n-th run of its effect, each run after the cleanup of the one before it.
pub data Runs (store : KaradulState) : ℕ → Provider → Type 0 where
  first : (succeeds : Bool) → Runs store 1 (effect_setup succeeds (fresh store))
  moves : {n : ℕ} {p q : Provider} → Runs store n p → Step p q → Runs store n q
  again :
      {n : ℕ} {p : Provider} (succeeds : Bool)
      → Runs store n p
      → Runs store (suc n) (effect_setup succeeds (effect_cleanup p))

pending-stopped : (p : Provider) → pending_timers (stopped p) ≤ pending_timers p
unfolding clear_timeout
pending-stopped p = elim (Option-cases p.reconnect_timer) [
  | inl e ↦ rw (clear_timeout, e) (omega arith)
  | inr (id, e) ↦ rw (clear_timeout, e) (count-set-false p.timers id)
]

under_way-effect_cleanup : (p : Provider) → under_way (effect_cleanup p) ≤ under_way p
unfolding effect_cleanup
under_way-effect_cleanup p =
    let same = close_effect_ws-SameButSockets p.effect_ws (stopped p) in
    omega (arith, live-effect_cleanup p, ap (count is_pending) same.timers, pending-stopped p)

-- In the n-th run of the effect, at every moment, the provider is mounted, and at least one
-- connection or reconnection is under way and never more than n.
pub Runs-bounded :
    (store : KaradulState) {n : ℕ} {p : Provider}
    → Runs store n p
    → (p.mounted ≡ true) × (1 ≤ under_way p) × (under_way p ≤ n)
Runs-bounded store (first succeeds) =
    let one = under_way-effect_setup succeeds (fresh store) in
    (one.0, omega (arith, one.1), omega (arith, one.1))
Runs-bounded store (moves r s) =
    let (m, low, high) = Runs-bounded store r in
    let kept = Step-Keeps s m in
    (kept.mounted, omega (arith, low, kept.same), omega (arith, high, kept.same))
Runs-bounded store (again {n} {p} succeeds r) =
    let (m, low, high) = Runs-bounded store r in
    let more = under_way-effect_setup succeeds (effect_cleanup p) in
    (more.0, omega (arith, more.1), omega (arith, more.1, high, under_way-effect_cleanup p))
