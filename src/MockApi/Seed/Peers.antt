-- ===== src/MockApi/Seed/Peers.antt =====
-- The peers that web/src/lib/mock-api.ts starts from.
use karadul.Base.{ℕ, ◌-◌, ◌*◌, ◌/◌, none, some, List, [], ◌∷◌, Text, codes}
use karadul.Store.{Peer, PeerState}

-- `now` and `iso` as in the parent.
module _ (iso : ℕ → Text) (now : ℕ) where
  abbrev pub mock_peers : List Peer
  mock_peers =
      record {
        id = codes "peer-1";
        hostname = codes "laptop-alice";
        virtual_ip = codes "100.64.0.2";
        state = PeerState.direct;
        endpoint = some (codes "198.51.100.5:51820");
        last_handshake = some (iso (now - 120000));
        rx_bytes = 1024 * 1024 * 500;
        tx_bytes = 1024 * 1024 * 300;
        latency = some (25);
      }
      ∷ record {
        id = codes "peer-2";
        hostname = codes "phone-bob";
        virtual_ip = codes "100.64.0.3";
        state = PeerState.relayed;
        endpoint = some (codes "relay.karadul.local:3478");
        last_handshake = some (iso (now - 300000));
        rx_bytes = 1024 * 1024 * 100;
        tx_bytes = 1024 * 1024 * 150;
        latency = some (85);
      }
      ∷ record {
        id = codes "peer-3";
        hostname = codes "desktop-carol";
        virtual_ip = codes "100.64.0.4";
        state = PeerState.direct;
        endpoint = some (codes "198.51.100.20:51820");
        last_handshake = some (iso (now - 60000));
        rx_bytes = 1024 * 1024 * 1024 * 8 / 10;
        tx_bytes = 1024 * 1024 * 1024 * 5 / 10;
        latency = some (15);
      }
      ∷ record {
        id = codes "peer-4";
        hostname = codes "tablet-dave";
        virtual_ip = codes "100.64.0.5";
        state = PeerState.idle;
        endpoint = none;
        last_handshake = some (iso (now - 3600000));
        rx_bytes = 1024 * 1024 * 50;
        tx_bytes = 1024 * 1024 * 30;
        latency = none;
      }
      ∷ record {
        id = codes "peer-5";
        hostname = codes "vpn-gateway";
        virtual_ip = codes "100.64.0.10";
        state = PeerState.connecting;
        endpoint = none;
        last_handshake = none;
        rx_bytes = 0;
        tx_bytes = 0;
        latency = none;
      }
      ∷ []
