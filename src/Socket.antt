-- ===== src/Socket.antt =====
-- web/src/lib/websocket.tsx: the provider that keeps a WebSocket to the coordinator and reconnects
-- it. The browser's objects are lists: every WebSocket ever made by its phase, every `setTimeout`
-- by whether it is still to fire. An index is the object.
pub mod Steps
pub mod Leaks
pub mod Reruns
pub mod Refinement
pub mod Recovery
pub mod Runs
pub mod Strict
use karadul.Base.{
  ℕ, ◌+◌, ◌≡◌, ◌≢◌, Bool, true, false, not, Option, none, some, List, [], ◌∷◌, ◌++◌, if◌then◌else◌,
  length, get_elem?, set, count, Text, codes, tests,
}
use karadul.Store.{
  Node, Peer, MeshTopology, SystemStats, KaradulState, act, set_nodes, set_peers, set_topology,
  set_stats,
}

-- `readyState`
pub data Phase : Type 0 where
  connecting opened closing closed : Phase

-- `event.data`: what `JSON.parse` and the tests on `message.type` make of it. A text that does not
-- parse, or whose value has no fields, throws.
pub data Payload : Type 0 where
  nodes_message : List Node → Payload
  peers_message : List Peer → Payload
  topology_message : MeshTopology → Payload
  stats_message : SystemStats → Payload
  unknown_message : Text → Payload
  malformed : Payload

pub record Provider : Type 0 where
  pub connected : Bool
  pub error : Option Text
  pub mounted : Bool
  pub sockets : List Phase
  pub timers : List Bool
  pub reconnect_timer : Option ℕ
  -- the `ws` that the running effect holds
  pub effect_ws : Option ℕ
  pub store : KaradulState

-- The provider before its first effect. `useRef(true)` is the flag's first value.
abbrev pub fresh : KaradulState → Provider
fresh store = record {
  connected = false;
  error = none;
  mounted = true;
  sockets = [];
  timers = [];
  reconnect_timer = none;
  effect_ws = none;
  store = store;
}

-- `reconnectTimerRef.current = setTimeout(connect, 3000)`
pub schedule : Provider → Provider
schedule p = record p { timers = p.timers ++ true ∷ []; reconnect_timer = some (length p.timers) }

-- `connect`. The flag says whether `new WebSocket(url)` succeeds or throws.
pub connect : Bool → Provider → Option ℕ × Provider
unfolding schedule
connect true p = (some (length p.sockets), record p { sockets = p.sockets ++ connecting ∷ [] })
connect false p =
    if not p.mounted
    then (none, p)
    else (none, schedule (record p { error = some (codes "Failed to connect to WebSocket") }))

-- `ws.close()`
pub close_socket : ℕ → Provider → Provider
close_socket i p = elim (get_elem? p.sockets i) [
  | some connecting ↦ record p { sockets = set p.sockets i closing }
  | some opened ↦ record p { sockets = set p.sockets i closing }
  | _ ↦ p
]

-- `ws.onopen`
pub on_open : Provider → Provider
on_open p = if p.mounted then record p { connected = true; error = none } else p

-- `ws.onmessage`: the store's actions; what it cannot use goes to the console.
abbrev pub on_message : Payload → KaradulState → KaradulState
on_message (nodes_message nodes) s = act s (set_nodes nodes)
on_message (peers_message peers) s = act s (set_peers peers)
on_message (topology_message topology) s = act s (set_topology topology)
on_message (stats_message stats) s = act s (set_stats stats)
on_message (unknown_message type) s = s
on_message malformed s = s

-- `ws.onclose`
pub on_close : Provider → Provider
unfolding schedule
on_close p = if not p.mounted then p else schedule (record p { connected = false })

-- `ws.onerror`
pub on_error : ℕ → Provider → Provider
unfolding close_socket
on_error i p =
    if not p.mounted
    then p
    else close_socket i
        (record p { error = some (codes "WebSocket connection failed"); connected = false })

-- The body of the effect.
unfoldable pub effect_setup : Bool → Provider → Provider
unfolding connect
effect_setup succeeds p =
    let (ws, q) = connect succeeds (record p { mounted = true }) in record q { effect_ws = ws }

-- `clearTimeout(id)`
pub clear_timeout : Option ℕ → Provider → Provider
clear_timeout none p = p
clear_timeout (some id) p = record p { timers = set p.timers id false }

pub close_effect_ws : Option ℕ → Provider → Provider
unfolding close_socket
close_effect_ws none p = p
close_effect_ws (some i) p = close_socket i p

-- The function that the effect returns.
unfoldable pub effect_cleanup : Provider → Provider
unfolding clear_timeout close_effect_ws
effect_cleanup p =
    close_effect_ws p.effect_ws (clear_timeout p.reconnect_timer (record p { mounted = false }))

-- What the browser does of itself: it changes a phase or a timer, and then calls the handler.
unfoldable pub deliver_open : ℕ → Provider → Provider
unfolding on_open
deliver_open i p = on_open (record p { sockets = set p.sockets i opened })

unfoldable pub deliver_message : Payload → Provider → Provider
deliver_message payload p = record p { store = on_message payload p.store }

unfoldable pub deliver_error : ℕ → Provider → Provider
unfolding on_error
deliver_error i p = on_error i p

unfoldable pub deliver_close : ℕ → Provider → Provider
unfolding on_close
deliver_close i p = on_close (record p { sockets = set p.sockets i closed })

unfoldable pub fire : ℕ → Bool → Provider → Provider
unfolding connect
fire i succeeds p = (connect succeeds (record p { timers = set p.timers i false })).1

-- The browser's moves between two runs of the effect: a socket opens, brings a message, fails or
-- closes, and a timer fires, each only in a phase that allows it. A socket may fail until it is
-- closed, also one that the code has told to close before it was open.
pub data Step (p : Provider) : Provider → Type 0 where
  opens : (i : ℕ) → get_elem? p.sockets i ≡ some connecting → Step p (deliver_open i p)
  brings :
      (i : ℕ) (payload : Payload)
      → get_elem? p.sockets i ≡ some opened
      → Step p (deliver_message payload p)
  fails :
      (i : ℕ) (phase : Phase)
      → get_elem? p.sockets i ≡ some phase
      → phase ≢ closed
      → Step p (deliver_error i p)
  closes :
      (i : ℕ) (phase : Phase)
      → get_elem? p.sockets i ≡ some phase
      → phase ≢ closed
      → Step p (deliver_close i p)
  fires : (i : ℕ) (succeeds : Bool) → get_elem? p.timers i ≡ some true → Step p (fire i succeeds p)

pub data Reach (p : Provider) : Provider → Type 0 where
  here : Reach p p
  next : {q r : Provider} → Reach p q → Step q r → Reach p r

abbrev pub is_connecting : Phase → Bool
is_connecting connecting = true
is_connecting _ = false

abbrev pub is_opened : Phase → Bool
is_opened opened = true
is_opened _ = false

abbrev pub is_closing : Phase → Bool
is_closing closing = true
is_closing _ = false

abbrev pub is_pending : Bool → Bool
is_pending to_fire = to_fire

-- The sockets that are not yet closed, and the timers still to fire.
abbrev pub live_sockets : Provider → ℕ
live_sockets p =
    count is_connecting p.sockets + count is_opened p.sockets + count is_closing p.sockets

abbrev pub pending_timers : Provider → ℕ
pending_timers p = count is_pending p.timers
