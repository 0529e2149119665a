-- ===== src/MockApi/Seed.antt =====
-- The arrays that web/src/lib/mock-api.ts starts from. Byte counters that the source gives as a fraction
-- of a gigabyte are cut to whole bytes.
mod Peers
use karadul.Base.{ℕ, ◌+◌, ◌-◌, ◌*◌, ◌/◌, true, false, none, some, List, [], ◌∷◌, Text, codes}
use karadul.Store.{
  Node, Peer, Connection, SystemStats, online, offline, pending, PeerState, ConnectionType,
}
use karadul.Api.Mutations.{AuthKey, AclRule, allow, deny}
use karadul.MockApi.{MockState}
use karadul.MockApi.Seed.Peers.{mock_peers}

-- `now` is the time when the module is loaded, after 1 January 1970, and `iso` prints a
-- time.
module _ (iso : ℕ → Text) (now : ℕ) where
  abbrev pub mock_nodes : List Node
  mock_nodes =
      record {
        id = codes "node-1";
        hostname = codes "server-01";
        virtual_ip = codes "100.64.0.1";
        public_key = codes "pubkey1abc123...";
        status = online;
        endpoint = some (codes "203.0.113.1:51820");
        last_seen = some (iso now);
        routes = some (codes "10.0.0.0/24" ∷ []);
        is_exit_node = some true;
        registered_at = none;
        rx_bytes = some (1024 * 1024 * 1024 * 25 / 10);
        tx_bytes = some (1024 * 1024 * 1024 * 18 / 10);
      }
      ∷ record {
        id = codes "node-2";
        hostname = codes "laptop-alice";
        virtual_ip = codes "100.64.0.2";
        public_key = codes "pubkey2def456...";
        status = online;
        endpoint = some (codes "198.51.100.5:51820");
        last_seen = some (iso now);
        routes = none;
        is_exit_node = some false;
        registered_at = none;
        rx_bytes = some (1024 * 1024 * 500);
        tx_bytes = some (1024 * 1024 * 300);
      }
      ∷ record {
        id = codes "node-3";
        hostname = codes "phone-bob";
        virtual_ip = codes "100.64.0.3";
        public_key = codes "pubkey3ghi789...";
        status = offline;
        endpoint = some (codes "192.0.2.10:51820");
        last_seen = some (iso (now - 86400000));
        routes = none;
        is_exit_node = some false;
        registered_at = none;
        rx_bytes = some (1024 * 1024 * 100);
        tx_bytes = some (1024 * 1024 * 150);
      }
      ∷ record {
        id = codes "node-4";
        hostname = codes "desktop-carol";
        virtual_ip = codes "100.64.0.4";
        public_key = codes "pubkey4jkl012...";
        status = online;
        endpoint = some (codes "198.51.100.20:51820");
        last_seen = some (iso now);
        routes = none;
        is_exit_node = some false;
        registered_at = none;
        rx_bytes = some (1024 * 1024 * 1024 * 8 / 10);
        tx_bytes = some (1024 * 1024 * 1024 * 5 / 10);
      }
      ∷ record {
        id = codes "node-5";
        hostname = codes "tablet-dave";
        virtual_ip = codes "100.64.0.5";
        public_key = codes "pubkey5mno345...";
        status = pending;
        endpoint = none;
        last_seen = none;
        routes = none;
        is_exit_node = some false;
        registered_at = none;
        rx_bytes = some (0);
        tx_bytes = some (0);
      }
      ∷ []

  abbrev pub mock_auth_keys : List AuthKey
  mock_auth_keys =
      record {
        id = codes "key-1";
        key = codes "kdl_auth_abc123def456ghi789";
        ephemeral = true;
        expires_at = none;
        created_at = iso (now - 86400000 * 7);
        used_at = none;
        used = true;
      }
      ∷ record {
        id = codes "key-2";
        key = codes "kdl_auth_jkl012mno345pqr678";
        ephemeral = false;
        expires_at = some (iso (now + 86400000 * 4));
        created_at = iso (now - 86400000 * 3);
        used_at = none;
        used = false;
      }
      ∷ record {
        id = codes "key-3";
        key = codes "kdl_auth_stu901vwx234yz5678";
        ephemeral = false;
        expires_at = none;
        created_at = iso now;
        used_at = none;
        used = false;
      }
      ∷ []

abbrev pub mock_connections : List Connection
mock_connections =
    record {
      from = codes "node-1";
      to = codes "node-2";
      type = ConnectionType.direct;
      latency = some 25;
    }
    ∷ record {
      from = codes "node-1";
      to = codes "node-3";
      type = ConnectionType.relay;
      latency = some 85;
    }
    ∷ record {
      from = codes "node-1";
      to = codes "node-4";
      type = ConnectionType.direct;
      latency = some 15;
    }
    ∷ record {
      from = codes "node-2";
      to = codes "node-4";
      type = ConnectionType.direct;
      latency = some 35;
    }
    ∷ record {
      from = codes "node-3";
      to = codes "node-5";
      type = ConnectionType.relay;
      latency = some 120;
    }
    ∷ []

abbrev pub mock_stats : SystemStats
mock_stats = record {
  uptime = 86400 * 3 + 3600 * 5 + 1800;
  memory_usage = 1024 * 1024 * 256;
  cpu_usage = 12500;
  goroutines = 47;
  peers_connected = 3;
  total_rx = 1024 * 1024 * 1024 * 52 / 10;
  total_tx = 1024 * 1024 * 1024 * 38 / 10;
}

abbrev pub mock_acl : List AclRule
mock_acl =
    record {
      action = allow;
      src = codes "100.64.0.0/10" ∷ [];
      dst = codes "100.64.0.0/10" ∷ [];
      ports = some (codes "*" ∷ []);
    }
    ∷ record {
      action = allow;
      src = codes "100.64.0.0/10" ∷ [];
      dst = codes "0.0.0.0/0" ∷ [];
      ports = some (codes "53/udp" ∷ []);
    }
    ∷ record {
      action = deny;
      src = codes "100.64.0.0/10" ∷ [];
      dst = codes "10.0.0.0/8" ∷ codes "172.16.0.0/12" ∷ codes "192.168.0.0/16" ∷ [];
      ports = none;
    }
    ∷ []

-- The state before the first call.
abbrev pub initial_mock : (ℕ → Text) → ℕ → MockState
initial_mock iso now = record {
  nodes = mock_nodes iso now;
  peers = mock_peers iso now;
  connections = mock_connections;
  stats = mock_stats;
  auth_keys = mock_auth_keys iso now;
  acl = mock_acl;
}
