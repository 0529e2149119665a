-- ===== src/Examples/Data.antt =====
-- The data of the examples.
use karadul.Base.{ℕ, ap, true, false, none, some, [], ◌∷◌, if◌then◌else◌, Text, codes, text_eq, pos}
use karadul.Store.{Node, online, SystemStats, initial_state}
use karadul.Api.{Request, Reply, response, Outcome, ok, err, App}
use karadul.Api.Mutations.{AuthKey, AclRule, ServerConfig, Mutation, allow, deny}
use karadul.Api.Mutations.Runner.{Runner}
use karadul.Pages.Settings.{SettingsPage}

abbrev pub laptop : Node
laptop = record {
  id = codes "n1";
  hostname = codes "laptop";
  virtual_ip = codes "100.64.0.1";
  public_key = codes "Kq";
  status = online;
  endpoint = some (codes "1.2.3.4:51820");
  last_seen = none;
  routes = none;
  is_exit_node = some true;
  registered_at = none;
  rx_bytes = some 1536;
  tx_bytes = none;
}

abbrev pub server : Node
server = record laptop {
  id = codes "n2";
  hostname = codes "rack 7, left";
  is_exit_node = some false;
}

abbrev pub stats_with : ℕ → ℕ → SystemStats
stats_with rx tx = record {
  uptime = 60;
  memory_usage = 1048576;
  cpu_usage = 12500;
  goroutines = 9;
  peers_connected = 2;
  total_rx = rx;
  total_tx = tx;
}

abbrev pub api_key : AuthKey
api_key = record {
  id = codes "k1";
  key = codes "tskey";
  ephemeral = false;
  expires_at = none;
  created_at = codes "2024-01-01";
  used_at = none;
  used = false;
}

abbrev pub web_rule : AclRule
web_rule = record {
  action = allow;
  src = codes "10.0.0.0/8" ∷ [];
  dst = codes "*" ∷ [];
  ports = some (codes "80" ∷ codes "443" ∷ []);
}

abbrev pub config : ServerConfig
config = record {
  addr = some (codes ":8080");
  tls = none;
  approval_mode = some (codes "auto");
  subnet = none;
  data_dir = none;
  log_level = none;
  log_format = none;
  rate_limit = some (pos 100);
}

abbrev pub page : SettingsPage
page = record {
  new_key_expires_in = codes "7d";
  show_create_dialog = true;
  copied_key = none;
  acl_rules = web_rule ∷ record web_rule { action = deny } ∷ [];
  config_form = config;
  admin_token = [];
}

abbrev pub app : App
app = record {
  store = initial_state;
  storage = (codes "karadul_admin_token", codes "secret") ∷ [];
  toasts = [];
  invalidated = [];
  requests = [];
}

-- React Query's contract, met by a function.
finish : {V T : Type 0} → Mutation V T → Outcome T × App → Outcome T × App
finish m (ok value, after) = (ok value, m.on_success after)
finish m (err message, after) = (err message, m.on_error message after)

abbrev pub runner : Runner
unfolding finish
runner = record {
  mutate_async = λ V T m v app. finish m (m.mutation_fn v app);
  succeeds = λ V T m v app {value} {after} e. ap (finish m) e;
  fails = λ V T m v app {message} {after} e. ap (finish m) e;
}

-- A coordinator without a body in its replies, and a parser that has none to read.
abbrev pub silent : Request → Reply
silent request =
    if text_eq request.method (codes "DELETE") then response true 204 [] else response true 200 []

abbrev pub no_json : {A : Type 0} → Text → Outcome A
no_json body = err (codes "Unexpected end of JSON input")

abbrev pub one_key : Text → Outcome AuthKey
one_key body = ok api_key
