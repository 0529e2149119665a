-- ===== src/Examples/Sockets.antt =====
-- Runs of the WebSocket provider.
use karadul.Base.{◌≤◌, ◌+◌, ◌≡◌, refl, ◌≢◌, true, none, some, [], ◌∷◌, get_elem?}
use karadul.Store.{initial_state}
use karadul.Socket.{
  opened, closed, Provider, fresh, effect_setup, effect_cleanup, deliver_open, deliver_close,
  deliver_message, fire, on_message, nodes_message, Step, opens, closes, fires, brings, Reach, here,
  next, live_sockets, pending_timers,
}
use karadul.Socket.Steps.{first_mount-one}
use karadul.Socket.Refinement.{run_link, signals, first_link, link_of, is_up, provider-run_link}
use karadul.Socket.Recovery.{steps, connected_again}
use karadul.Socket.Runs.{Runs, first, moves, again, Runs-bounded}
use karadul.Socket.Leaks.{cleanup-quiet, cleanup-leaks}
use karadul.Socket.Reruns.{under_way, rerun-under_way}
use karadul.Examples.Data.{laptop}

abbrev mounted : Provider
unfolding effect_setup
mounted = effect_setup true (fresh initial_state)

-- The first socket opens and is lost, and the reconnect opens a second.
abbrev lost : Provider
unfolding deliver_open deliver_close mounted
lost = deliver_close 0 (deliver_open 0 mounted)

abbrev reconnected : Provider
unfolding deliver_open fire lost
reconnected = deliver_open 1 (fire 0 true lost)

opened_ne_closed : opened ≢ closed
opened_ne_closed h = cc

reconnected-Reach : Reach (effect_setup true (fresh initial_state)) reconnected
unfolding effect_setup deliver_open deliver_close fire
reconnected-Reach =
    next
      (next (next (next here (opens 0 refl)) (closes 0 opened refl opened_ne_closed))
        (fires 0 true refl))
      (opens 1 refl)

abbrev cleaned : Provider
unfolding effect_cleanup reconnected
cleaned = effect_cleanup reconnected

provider-run_link_example :
    (link_of reconnected ≡ run_link (first_link true) (signals reconnected-Reach))
    × (reconnected.connected ≡ is_up (run_link (first_link true) (signals reconnected-Reach)))
provider-run_link_example = provider-run_link true initial_state reconnected-Reach

connected_again_example :
    (q : Provider) × (r : Reach reconnected q) × (steps r ≤ 3)
    × (q.connected ≡ true)
    × (q.error ≡ none)
connected_again_example = connected_again true initial_state reconnected-Reach

cleaned-Reach :
    Reach
      (effect_cleanup reconnected)
      (deliver_message (nodes_message (laptop ∷ [])) (effect_cleanup reconnected))
unfolding effect_cleanup deliver_open deliver_close fire effect_setup
cleaned-Reach = next here (brings 1 (nodes_message (laptop ∷ [])) refl)

first_mount-one_example : live_sockets reconnected + pending_timers reconnected ≡ 1
first_mount-one_example = first_mount-one true initial_state reconnected-Reach

cleanup-quiet_example :
    let after = deliver_message (nodes_message (laptop ∷ [])) (effect_cleanup reconnected) in
    (pending_timers after ≡ 0)
    × (after.connected ≡ reconnected.connected)
    × (after.error ≡ reconnected.error)
cleanup-quiet_example = cleanup-quiet true initial_state reconnected-Reach cleaned-Reach

second_opened : get_elem? reconnected.sockets 1 ≡ some opened
unfolding effect_setup deliver_open deliver_close fire
second_opened = refl

second_not_held : reconnected.effect_ws ≢ some 1
unfolding effect_setup deliver_open deliver_close fire
second_not_held h = cc

cleanup-leaks_example :
    let payload = nodes_message (laptop ∷ []) in
    (get_elem? (effect_cleanup reconnected).sockets 1 ≡ some opened)
    × Step (effect_cleanup reconnected) (deliver_message payload (effect_cleanup reconnected))
    × ((deliver_message payload (effect_cleanup reconnected)).store
        ≡ on_message payload reconnected.store)
cleanup-leaks_example =
    cleanup-leaks reconnected 1 (nodes_message (laptop ∷ [])) second_opened second_not_held

-- The effect is run again while the first socket is open, whose `onclose` then comes.
open_once-Reach :
    Reach
      (effect_setup true (fresh initial_state))
      (deliver_open 0 (effect_setup true (fresh initial_state)))
unfolding effect_setup
open_once-Reach = next here (opens 0 refl)

abbrev rerun : Provider
rerun =
    effect_setup true (effect_cleanup (deliver_open 0 (effect_setup true (fresh initial_state))))

rerun-Reach : Reach rerun (deliver_close 0 rerun)
unfolding effect_setup effect_cleanup deliver_open
rerun-Reach = next here (closes 0 _ refl (λ h. cc))

rerun-under_way_example :
    under_way (deliver_close 0 rerun)
    ≡ live_sockets (deliver_open 0 (effect_setup true (fresh initial_state))) + 1
rerun-under_way_example = rerun-under_way true true initial_state open_once-Reach rerun-Reach

rerun-Runs : Runs initial_state 2 (deliver_close 0 rerun)
unfolding effect_setup effect_cleanup deliver_open
rerun-Runs = moves (again true (moves (first true) (opens 0 refl))) (closes 0 _ refl (λ h. cc))

Runs-bounded_example :
    ((deliver_close 0 rerun).mounted ≡ true)
    × (1 ≤ under_way (deliver_close 0 rerun))
    × (under_way (deliver_close 0 rerun) ≤ 2)
Runs-bounded_example = Runs-bounded initial_state rerun-Runs
