-- ===== src/Examples/Settings.antt =====
-- The settings page and the in-memory coordinator.
use karadul.Base.{show_number, IsDigits, ◌≡◌, refl, [], ◌∷◌, ◌++◌, count, codes, text_eq}
use karadul.Api.Mutations.{AuthKey}
use karadul.Pages.Fields.{entries, shown_entries}
use karadul.Pages.Settings.Entries.{IsEntry, entries-shown_entries}
use karadul.MockApi.{MockState}
use karadul.Examples.Data.{laptop, server, stats_with, api_key, web_rule}
use karadul.MockApi.{parse_duration}
use karadul.MockApi.Seed.{initial_mock}
use karadul.Pages.Peers.{active_peers}

subnet-IsEntry : IsEntry (codes "10.0.0.0/8")
unfolding entries
subnet-IsEntry = (refl, (λ h. cc), refl)

entries-shown_entries_example :
    entries (shown_entries (codes "10.0.0.0/8" ∷ codes "10.0.0.0/8" ∷ []))
    ≡ codes "10.0.0.0/8" ∷ codes "10.0.0.0/8" ∷ []
entries-shown_entries_example =
    entries-shown_entries (codes "10.0.0.0/8" ∷ codes "10.0.0.0/8" ∷ [])
      (subnet-IsEntry, (subnet-IsEntry, tt))

abbrev mock : MockState
mock = record {
  nodes = laptop ∷ server ∷ [];
  peers = [];
  connections = [];
  stats = stats_with 100 10;
  auth_keys = api_key ∷ [];
  acl = web_rule ∷ [];
}

-- The arrays that the coordinator starts from, with times printed as their milliseconds.
abbrev seed : MockState
seed = initial_mock show_number 1700000000000

no_such_key :
    count (λ (k : AuthKey). text_eq k.id (codes "key-" ++ show_number 1700000000000)) seed.auth_keys
    ≡ 0
unfolding show_number
no_such_key = refl

seven-IsDigits : IsDigits (codes "7")
seven-IsDigits = ((λ h. cc), refl)

-- The number of connected peers in the statistics is that of the active peers.
peers_connected_test : seed.stats.peers_connected ≡ active_peers seed.peers
unfolding active_peers
peers_connected_test = refl

-- The in-memory coordinator reads minutes as nothing.
parse_duration_test : parse_duration (codes "30m") ≡ 0
unfolding parse_duration
parse_duration_test = refl
