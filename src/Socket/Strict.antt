-- ===== src/Socket/Strict.antt =====
-- The mount of web/src/main.tsx, whose `StrictMode` runs each effect of a development build twice, with its
-- cleanup in between, as the provider of web/src/lib/websocket.tsx sees it.
use karadul.Base.{◌≡◌, Bool, true}
use karadul.Store.{KaradulState}
use karadul.Socket.{Provider, fresh, effect_setup, effect_cleanup, Reach, here}
use karadul.Socket.Reruns.{under_way, rerun-under_way}

-- The flags say whether `new WebSocket(url)` succeeds in the two runs.
unfoldable pub strict_mount : Bool → Bool → KaradulState → Provider
unfolding effect_setup effect_cleanup
strict_mount first second store =
    effect_setup second (effect_cleanup (effect_setup first (fresh store)))

-- In a development build, if the first run could make its socket, two connections or reconnections are
-- under way at every moment after the mount: the socket of the first run is still connecting when it
-- is cleaned up, and its `onclose` comes after the second run has begun.
pub strict_mount-under_way :
    (second : Bool) (store : KaradulState) {q : Provider}
    → Reach (strict_mount true second store) q
    → under_way q ≡ 2
unfolding strict_mount
strict_mount-under_way second store rest = rerun-under_way true second store here rest
