-- ===== src/MockApi.antt =====
-- web/src/lib/mock-api.ts: the in-memory coordinator. Its arrays are the fields of a state; the clock,
-- the random numbers and the printed dates are arguments.
pub mod Laws
pub mod Keys
pub mod Registry
pub mod Seed
use mathlib.Core.Option
use Prim.Native.Nat.{max}
use karadul.Base.{
  erase_idx, ℕ, zero, suc, ◌+◌, ◌-◌, ◌*◌, min, Bool, false, ◌||◌, Option, none, some, List, [], ◌∷◌,
  ◌++◌, map, leb, ◌==◌, if◌then◌else◌, Text, codes, text_eq, show_number, parse_int,
}
use karadul.Store.{Node, Peer, TopologyNode, Connection, MeshTopology, SystemStats}
use karadul.Api.Mutations.{AuthKey, AclRule}
use karadul.Api.Duration.{match_duration}

pub record MockState : Type 0 where
  pub nodes : List Node
  pub peers : List Peer
  pub connections : List Connection
  pub stats : SystemStats
  pub auth_keys : List AuthKey
  pub acl : List AclRule

-- `xs.findIndex(p)`; `none` is -1.
abbrev pub find_index {ℓ} : {A : Type ℓ} → (A → Bool) → List A → Option ℕ
find_index p [] = none
find_index p (x ∷ xs) = let rest = Option.map suc (find_index p xs) in if p x then some 0 else rest

abbrev pub erase_found {ℓ} : {A : Type ℓ} → Option ℕ → List A → List A
erase_found none xs = xs
erase_found (some i) xs = erase_idx xs i

unfoldable pub get_nodes : MockState → List Node
get_nodes s = s.nodes

unfoldable pub delete_node : Text → MockState → MockState
delete_node id s = record s {
  nodes = erase_found (find_index (λ (n : Node). text_eq n.id id) s.nodes) s.nodes;
}

unfoldable pub get_peers : MockState → List Peer
get_peers s = s.peers

-- The topology shows the nodes themselves, with the fields that the interface names.
abbrev pub topology_node : (Node → Text) → Node → TopologyNode
topology_node status_text n = record {
  id = n.id;
  hostname = n.hostname;
  virtual_ip = n.virtual_ip;
  status = status_text n;
  is_exit_node = n.is_exit_node;
}

unfoldable pub get_topology : (Node → Text) → MockState → MeshTopology
get_topology status_text s = record {
  nodes = map (topology_node status_text) s.nodes;
  connections = s.connections;
}

-- `Math.max(5, Math.min(50, cpuUsage + (Math.random() - 0.5) * 5))` in thousandths: `random` counts
-- thousandths below 5000, and what is drawn is `random` less 2500. The memory grows by `more`.
unfoldable pub get_stats : ℕ → ℕ → MockState → SystemStats
get_stats random more s = record s.stats {
  cpu_usage = max 5000 (min 50000 (s.stats.cpu_usage + random - 2500));
  memory_usage = s.stats.memory_usage + more;
}

unfoldable pub get_auth_keys : MockState → List AuthKey
get_auth_keys s = s.auth_keys

abbrev pub is_hd : ℕ → Bool
is_hd c = c == b'h' || c == b'd'

duration_of : Option (Text × ℕ) → ℕ
duration_of none = 0
duration_of (some (digits, unit)) = parse_int digits * (if unit == b'h' then 3600000 else 86400000)

-- `parseDuration(duration)`, in milliseconds
unfoldable pub parse_duration : Text → ℕ
unfolding duration_of
parse_duration duration = duration_of (match_duration is_hd duration)

-- The last time in milliseconds that a `Date` can hold: `toISOString` throws on a later one.
abbrev pub max_time : ℕ
max_time = 8640000000000000

-- `now` is `Date.now()`, `iso` prints a time, and `random` is the random part of the key. There is no
-- value where `toISOString` throws on the time of the expiry.
expires_at_of : (ℕ → Text) → ℕ → Option Text → Option (Option Text)
unfolding parse_duration
expires_at_of iso now none = some none
expires_at_of iso now (some []) = some none
expires_at_of iso now (some (c ∷ expires_in)) =
    let time = now + parse_duration (c ∷ expires_in) in
    if leb time max_time then some (some (iso time)) else none

-- The fields of `newKey`, with its expiry where that could be printed.
abbrev pub key_with : (ℕ → Text) → ℕ → Text → Option (Option Text) → Option AuthKey
key_with iso now random none = none
key_with iso now random (some expires_at) = some (record {
  id = codes "key-" ++ show_number now;
  key = codes "kdl_auth_" ++ random;
  ephemeral = false;
  expires_at = expires_at;
  created_at = iso now;
  used_at = none;
  used = false;
})

-- `newKey`
unfoldable pub new_auth_key : (ℕ → Text) → ℕ → Text → Option Text → Option AuthKey
unfolding expires_at_of
new_auth_key iso now random expires_in = key_with iso now random (expires_at_of iso now expires_in)

abbrev pub with_auth_key : Option AuthKey → MockState → Option AuthKey × MockState
with_auth_key none s = (none, s)
with_auth_key (some new_key) s =
    (some new_key, record s { auth_keys = s.auth_keys ++ new_key ∷ [] })

-- The key that is created, and none where the call throws and leaves the keys as they are.
unfoldable pub create_auth_key :
    (ℕ → Text) → ℕ → Text → Option Text → MockState → Option AuthKey × MockState
unfolding new_auth_key
create_auth_key iso now random expires_in s =
    with_auth_key (new_auth_key iso now random expires_in) s

unfoldable pub delete_auth_key : Text → MockState → MockState
delete_auth_key id s = record s {
  auth_keys = erase_found (find_index (λ (k : AuthKey). text_eq k.id id) s.auth_keys) s.auth_keys;
}

unfoldable pub get_acl : MockState → List AclRule
get_acl s = s.acl

-- The array is emptied and the new rules are pushed.
unfoldable pub update_acl : List AclRule → MockState → MockState
update_acl rules s = record s { acl = [] ++ rules }
