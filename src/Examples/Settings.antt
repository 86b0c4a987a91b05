-- ===== src/Examples/Settings.antt =====
-- The configuration on concrete files.
use subspace_daemon.Base.{
  List, Result, String, [], append_text, err, false, if◌then◌else◌, join, map, none, ok, refl, some,
  text_lt, true, ℕ, ◌==◌, ◌||◌, ◌↔◌, ◌∷◌, ◌≡◌,
}
use subspace_daemon.Base.Json.{null}
use subspace_daemon.Storage.Tables.{SinkConfig, db, agent_session_wake}
use subspace_daemon.HardFailure.{HardFailureHookConfig}
use subspace_daemon.Config.Error.{ConfigError, duplicate_sink_key, invalid_base_url}
use subspace_daemon.Config.Keyed.{Distinct, AllAt}
use subspace_daemon.Config.Entries.{
  StoredSinkConfig, StoredHardFailureHookConfig, read_sink, normalize_sinks,
  normalize_hard_failure_hooks,
}
use subspace_daemon.Config.Entries.Accepted.{IsSinkOf, normalize_sinks_accepts}
use subspace_daemon.Config.Url.{
  Url, sanitize_server_key_component, normalize_path, derive_server_key, derive_subspace_ws_url,
}
use subspace_daemon.Config.Url.Safe.{is_key_text, derive_server_key_safe}
use subspace_daemon.Config.Stored.{StoredConfig, StoredServerConfig, ServerConfig, AppPaths, Config}
use subspace_daemon.Config.Load.{
  Machine, not_found, read_servers, from_stored, normalize_scopes, derive_app_paths, upsert_server,
}
use subspace_daemon.Config.Load.WellFormed.{
  AreServersOf, IsWellFormed, read_servers_accepts, from_stored-IsWellFormed,
}

abbrev stored_sinks : List StoredSinkConfig
stored_sinks =
    record { key = none; kind = " db"; enabled = none; destination = none }
    ∷ record {
      key = some " w ";
      kind = "agent_session_wake";
      enabled = some false;
      destination = some " ";
    }
    ∷ []

abbrev sinks : List SinkConfig
sinks =
    record { key = "db"; kind = db; enabled = true; destination = none }
    ∷ record { key = "w"; kind = agent_session_wake; enabled = false; destination = none }
    ∷ []

normalize_sinks_accepts_example : (normalize_sinks (some stored_sinks) ≡ ok sinks) ↔ (
    AllAt read_sink duplicate_sink_key (λ s. s.key) IsSinkOf 0 stored_sinks sinks
    × Distinct (map (λ s. s.key) sinks))
normalize_sinks_accepts_example = normalize_sinks_accepts (some stored_sinks) sinks

sinks_here : normalize_sinks (some stored_sinks) ≡ ok sinks
unfolding normalize_sinks
sinks_here = refl

repeated_here :
    normalize_sinks (
      some (
        record { key = none; kind = "db"; enabled = none; destination = none }
        ∷ record {
          key = some "db";
          kind = "agent_session_wake";
          enabled = none;
          destination = none;
        }
        ∷ []))
    ≡ err (duplicate_sink_key "db")
unfolding normalize_sinks
repeated_here = refl

abbrev stored_hooks : List StoredHardFailureHookConfig
stored_hooks =
    record {
      key = none;
      command = " /bin/mail";
      args = [];
      env = [];
      template = none;
      timeout_ms = none;
      throttle_ms = some 0;
      enabled = none;
    }
    ∷ []

abbrev hooks : List HardFailureHookConfig
hooks =
    record {
      key = "hook-1";
      command = "/bin/mail";
      args = [];
      env = [];
      template = "{{payload}}";
      timeout_ms = 10000;
      throttle_ms = 0;
      enabled = true;
    }
    ∷ []

hooks_here : normalize_hard_failure_hooks (some stored_hooks) ≡ ok hooks
unfolding normalize_hard_failure_hooks
hooks_here = refl

component_here : sanitize_server_key_component "-Sub.-Space.Example." ≡ some "sub_space_example"
unfolding sanitize_server_key_component
component_here = refl

path_here : normalize_path " /a/b//" ≡ "/a/b"
unfolding normalize_path
path_here = refl

scopes_here : normalize_scopes ("b " ∷ "a" ∷ " " ∷ "b" ∷ []) ≡ "a" ∷ "b" ∷ []
unfolding normalize_scopes text_lt
scopes_here = refl

abbrev url : String → Url
url host = record {
  scheme = "https";
  username = "";
  password = none;
  host_str = some host;
  port = none;
  port_or_known_default = some 443;
  path = "/";
  path_segments = some ("" ∷ []);
  query = none;
  fragment = none;
}

-- A URL library that knows two servers.
abbrev pub parse_url : String → Result ConfigError Url
parse_url text =
    if text == "https://a-b" || text == "https://a-b/"
    then ok (url "a-b")
    else if text == "https://a.b"
    then ok (url "a.b")
    else err (invalid_base_url text)

websocket_here :
    derive_subspace_ws_url parse_url "https://a-b/" ≡ ok "wss://a-b/api/firehose/stream/websocket"
unfolding derive_subspace_ws_url join
websocket_here = refl

-- Two servers with the same key, so with the same files.
same_key_here :
    derive_server_key parse_url "https://a-b" ≡ derive_server_key parse_url "https://a.b"
unfolding derive_server_key join
same_key_here = refl

key_here : derive_server_key parse_url "https://a-b" ≡ ok "https_a_b_443"
unfolding derive_server_key join
key_here = refl

derive_server_key_safe_example : is_key_text "https_a_b_443" ≡ true
derive_server_key_safe_example = derive_server_key_safe parse_url "https://a-b" key_here

abbrev computer : Machine String ℕ ℕ
computer = record {
  join_path = λ p s. append_text p (append_text "/" s);
  parent = λ p. some "/root";
  path_of = λ s. s;
  to_string_lossy = λ p. p;
  home_dir = some "/home";
  read_to_string = λ p. not_found;
  parse_json = λ s. ok null;
  parse_url = parse_url;
  default_jitter_ratio = 20;
}

abbrev paths : AppPaths String
paths = record {
  root = "/root";
  config_path = "/root/config.json";
  socket_path = "/root/daemon.sock";
  log_file = "/root/logs/daemon.log";
  identities_dir = "/root/identities";
  gateway_private_key_path = "/root/device/private.pem";
  gateway_public_key_path = "/root/device/public.pem";
  gateway_device_auth_store_path = "/root/device-auth.json";
  launchd_plist_path = "/home/Library/LaunchAgents/ai.openclaw.subspace-daemon.plist";
  state_lock_path = "/root/state.lock";
}

paths_here : derive_app_paths computer "/root/config.json" none ≡ ok paths
unfolding derive_app_paths
paths_here = refl

abbrev stored_server : String → StoredServerConfig
stored_server base_url = record {
  base_url = base_url;
  registration_name = none;
  identity = none;
  local_pack_paths = none;
  enabled = none;
  wake_session_key = none;
}

abbrev server : String → String → ServerConfig String
server base_url websocket_url = record {
  base_url = base_url;
  websocket_url = websocket_url;
  enabled = true;
  server_key = "https_a_b_443";
  registration_name = "subspace-daemon-host";
  identity = none;
  local_pack_paths = none;
  session_path = "/root/servers/https_a_b_443/subspace-session.json";
  runtime_path = "/root/servers/https_a_b_443/runtime.json";
  wake_session_key = none;
}

abbrev stored_servers : List StoredServerConfig
stored_servers = stored_server "https://a-b" ∷ stored_server " https://a.b" ∷ []

abbrev servers : List (ServerConfig String)
servers =
    server "https://a-b" "wss://a-b/api/firehose/stream/websocket"
    ∷ server "https://a.b" "wss://a.b/api/firehose/stream/websocket"
    ∷ []

-- Both are accepted.
servers_here : read_servers computer paths stored_servers ≡ ok servers
unfolding read_servers join
servers_here = refl

upserted_here :
    map
      (λ s. s.base_url)
      (upsert_server computer "https://a-b" "host" "me"
        (stored_server "https://a.b" ∷ stored_server "https://a-b/" ∷ []))
    ≡ "https://a.b" ∷ "https://a-b" ∷ []
unfolding upsert_server join
upserted_here = refl

read_servers_accepts_example :
    (read_servers computer paths stored_servers ≡ ok servers)
    ↔ AreServersOf computer paths stored_servers servers
read_servers_accepts_example = read_servers_accepts computer paths stored_servers servers

abbrev stored : StoredConfig ℕ
stored = record {
  gateway = record {
    ws_url = none;
    client_id = some " gateway-client";
    client_mode = none;
    display_name = none;
    device_id = none;
    requested_role = none;
    requested_scopes = some (" operator.write" ∷ "operator.write" ∷ []);
  };
  servers = stored_servers;
  attention = record { local_pack_paths = []; embedding_backends = [] };
  routing = none;
  replay = record { dedupe_window_size = none; discard_before_ts = none };
  logging = record { level = none; json = none };
  retry = record {
    base_ms = none;
    max_ms = none;
    jitter_ratio = none;
    storm_guard = record {
      failure_window_ms = none;
      consecutive_failure_threshold = none;
      cooldown_ms = none;
      max_cooldown_ms = none;
    };
  };
  storage = record { database_path = some "~/db"; artifact_root = none; auto_migrate = none };
  sinks = some stored_sinks;
  hard_failure_hooks = some stored_hooks;
}

abbrev settings : Config String ℕ
settings = record {
  gateway = record {
    ws_url = "ws://127.0.0.1:18789";
    client_id = "gateway-client";
    client_mode = "backend";
    display_name = "Subspace Daemon";
    device_id = none;
    shared_token = none;
    shared_password = none;
    requested_role = "operator";
    requested_scopes = "operator.write" ∷ [];
  };
  servers = servers;
  attention = record { local_pack_paths = []; embedding_backends = [] };
  wake_session_key = "agent:main:main";
  replay = record { dedupe_window_size = 500; discard_before_ts = none };
  logging = record { level = "info"; json = true };
  retry = record {
    base_ms = 1000;
    max_ms = 60000;
    jitter_ratio = 20;
    storm_guard = record {
      failure_window_ms = 300000;
      consecutive_failure_threshold = 10;
      cooldown_ms = 300000;
      max_cooldown_ms = 3600000;
    };
  };
  storage = record {
    database_path = "/home/db";
    artifact_root = "/home/.openclaw/subspace-daemon/artifacts";
    auto_migrate = true;
  };
  sinks = sinks;
  hard_failure_hooks = hooks;
  paths = paths;
}

settings_here : from_stored computer stored paths ≡ ok settings
unfolding from_stored text_lt join
settings_here = refl

from_stored-IsWellFormed_example : IsWellFormed computer stored paths settings
from_stored-IsWellFormed_example =
    from_stored-IsWellFormed computer stored paths settings settings_here
