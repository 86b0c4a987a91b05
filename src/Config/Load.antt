-- ===== src/Config/Load.antt =====
-- src/config.rs: `Config::from_stored` and what it calls.
pub mod WellFormed
use subspace_daemon.Base.{
  Bool, List, Option, Result, String, [], and_then, append_text, bail_if, err, false, filter,
  get_or, if◌then◌else◌, is_empty_text, map, none, not, ok, option_map, some, text_lt, trim, true,
  ℕ, ◌==◌, ◌>>=◌, ◌∷◌,
}
use subspace_daemon.Base.Json.{Json, get, as_str, obj}
use subspace_daemon.Attention.Plugin.{EmbeddingBackendConfig}
use subspace_daemon.Attention.Layer.{AttentionConfig}
use subspace_daemon.Runtime.Store.{RetryConfig}
use subspace_daemon.Config.Error.{
  ConfigError, duplicate_base_url, unreadable, unparsable, unknown_gateway_client_id,
  wrong_requested_scopes, no_home_directory, no_parent_directory,
}
use subspace_daemon.Config.Keyed.{keyed_loop}
use subspace_daemon.Config.Entries.{trimmed, normalize_sinks, normalize_hard_failure_hooks}
use subspace_daemon.Config.Url.{
  Url, ok_or, canonicalize_base_url, derive_subspace_ws_url, derive_server_key,
}
use subspace_daemon.Config.Stored.{
  StoredGatewayConfig, StoredServerConfig, StoredConfig, StoredRetryConfig, StoredStorageConfig,
  GatewayConfig, ServerConfig, ReplayConfig, LoggingConfig, StorageConfig, AppPaths, Config,
}

-- `fs::read_to_string`: the text, a missing file, or another error
pub data FileText : Type 0 where
  text : String → FileText
  not_found : FileText
  failed : String → FileText

-- What the process sees of its machine: the functions on paths, its files, the URL and the JSON
-- library, and 0.2 as a jitter ratio.
pub record Machine (P N R : Type 0) : Type 0 where
  pub join_path : P → String → P
  pub parent : P → Option P
  pub path_of : String → P
  pub to_string_lossy : P → String
  pub home_dir : Option P
  pub read_to_string : P → FileText
  pub parse_json : String → Result ConfigError (Json N)
  pub parse_url : String → Result ConfigError Url
  pub default_jitter_ratio : R

-- `str::strip_prefix`
abbrev pub strip_prefix : String → String → Option String
strip_prefix s String.[] = some s
strip_prefix String.[] (String.◌∷◌ d t) = none
strip_prefix (String.◌∷◌ c s) (String.◌∷◌ d t) =
    let rest = strip_prefix s t in if String.◌∷◌ c "" == String.◌∷◌ d "" then rest else none

unfoldable pub require_gateway_client_id : Option String → Result ConfigError String
unfolding trimmed
require_gateway_client_id raw = elim (trimmed raw) [
  | none ↦ ok "gateway-client"
  | some other ↦
      if other == "gateway-client"
      then ok "gateway-client"
      else err (unknown_gateway_client_id other)
]

unfoldable pub normalize_gateway_client_mode : Option String → String
unfolding trimmed
normalize_gateway_client_mode raw = get_or (trimmed raw) "backend"

-- `sort` on texts
unfoldable pub insert_text : String → List String → List String
insert_text s [] = s ∷ []
insert_text s (t ∷ ts) = if text_lt t s then t ∷ insert_text s ts else s ∷ t ∷ ts

unfoldable pub sort_texts : List String → List String
unfolding insert_text
sort_texts [] = []
sort_texts (s ∷ ss) = insert_text s (sort_texts ss)

-- `dedup`: the first of equal neighbours stays
unfoldable pub dedup : List String → List String
dedup [] = []
dedup (s ∷ []) = s ∷ []
dedup (s ∷ t ∷ ts) = let rest = dedup (t ∷ ts) in if s == t then rest else s ∷ rest

unfoldable pub normalize_scopes : List String → List String
unfolding trim sort_texts dedup
normalize_scopes scopes = dedup (sort_texts (filter (λ s. not (is_empty_text s)) (map trim scopes)))

-- `gateway.requested_scopes != vec![...]`
abbrev pub is_operator_write : List String → Bool
is_operator_write [] = false
is_operator_write (s ∷ []) = s == "operator.write"
is_operator_write (s ∷ t ∷ ts) = false

-- `ServerConfig::effective_local_pack_paths`
unfoldable pub effective_local_pack_paths :
    {P : Type 0} → ServerConfig P → List String → List String
effective_local_pack_paths s global_paths = get_or s.local_pack_paths global_paths

module _ {P N R : Type 0} (m : Machine P N R) where
  unfoldable pub expand_tilde : P → P
  expand_tilde path =
      get_or
        (and_then (strip_prefix (m.to_string_lossy path) "~/")
          (λ rest. option_map (λ home. m.join_path home rest) m.home_dir))
        path

  unfoldable pub default_database_path : P
  unfolding expand_tilde
  default_database_path = expand_tilde (m.path_of "~/.openclaw/subspace-daemon/data/daemon.sqlite3")

  unfoldable pub default_artifact_root : P
  unfolding expand_tilde
  default_artifact_root = expand_tilde (m.path_of "~/.openclaw/subspace-daemon/artifacts")

  abbrev file_text : FileText → Option String
  file_text (text s) = some s
  file_text not_found = none
  file_text (failed e) = none

  unfoldable pub default_registration_name : String
  unfolding trimmed
  default_registration_name =
      append_text "subspace-daemon-"
        (get_or (trimmed (file_text (m.read_to_string (m.path_of "/etc/hostname")))) "host")

  -- the token and the password of the gateway's own configuration
  unfoldable pub load_local_gateway_auth : P → Result ConfigError (Option String × Option String)
  unfolding get as_str
  load_local_gateway_auth path = elim (m.read_to_string path) [
    | not_found ↦ ok (none, none)
    | failed e ↦ err (unreadable e)
    | text raw ↦ m.parse_json raw >>= λ parsed.
        let auth = and_then (get "gateway" parsed) (get "auth") in
        ok (
          and_then (and_then auth (get "token")) as_str,
          and_then (and_then auth (get "password")) as_str,
        )
  ]

  unfoldable pub derive_app_paths : P → Option String → Result ConfigError (AppPaths P)
  unfolding expand_tilde
  derive_app_paths given socket_override =
      let config_path = expand_tilde given in
      ok_or (m.parent config_path) no_parent_directory >>= λ root.
      ok_or m.home_dir no_home_directory >>= λ home. ok (record {
        root = root;
        config_path = config_path;
        socket_path =
            get_or (option_map (λ v. expand_tilde (m.path_of v)) socket_override)
              (m.join_path root "daemon.sock");
        log_file = m.join_path (m.join_path root "logs") "daemon.log";
        identities_dir = m.join_path root "identities";
        gateway_private_key_path = m.join_path (m.join_path root "device") "private.pem";
        gateway_public_key_path = m.join_path (m.join_path root "device") "public.pem";
        gateway_device_auth_store_path = m.join_path root "device-auth.json";
        launchd_plist_path =
            m.join_path (m.join_path (m.join_path home "Library") "LaunchAgents")
              "ai.openclaw.subspace-daemon.plist";
        state_lock_path = m.join_path root "state.lock";
      })

  -- `upsert_server`: the first server whose canonical URL is the given one is updated.
  abbrev has_base_url : String → StoredServerConfig → Bool
  has_base_url base_url s = elim (canonicalize_base_url m.parse_url s.base_url) [
    | ok value ↦ value == base_url
    | err e ↦ false
  ]

  unfoldable pub upsert_server :
      String → String → String → List StoredServerConfig → List StoredServerConfig
  unfolding canonicalize_base_url
  upsert_server base_url registration_name identity [] =
      record {
        base_url = base_url;
        registration_name = some registration_name;
        identity = some identity;
        local_pack_paths = none;
        enabled = some true;
        wake_session_key = none;
      }
      ∷ []
  upsert_server base_url registration_name identity (s ∷ ss) =
      let rest = upsert_server base_url registration_name identity ss in
      if has_base_url base_url s
      then record s {
        base_url = base_url;
        registration_name = some registration_name;
        identity = some identity;
        enabled = some true;
      }
        ∷ ss
      else s ∷ rest

  -- The server loop of `from_stored`, for one entry.
  unfoldable pub read_server :
      AppPaths P
      → ℕ
      → StoredServerConfig
      → Result ConfigError (String × Result ConfigError (ServerConfig P))
  unfolding canonicalize_base_url derive_server_key derive_subspace_ws_url default_registration_name
  read_server paths index s = canonicalize_base_url m.parse_url s.base_url >>= λ base_url. ok (
    base_url,
    (derive_server_key m.parse_url base_url >>= λ server_key.
        derive_subspace_ws_url m.parse_url base_url >>= λ websocket_url.
        let server_dir = m.join_path (m.join_path paths.root "servers") server_key in
        ok (record {
          base_url = base_url;
          websocket_url = websocket_url;
          enabled = get_or s.enabled true;
          server_key = server_key;
          registration_name = get_or s.registration_name default_registration_name;
          identity = s.identity;
          local_pack_paths = s.local_pack_paths;
          session_path = m.join_path server_dir "subspace-session.json";
          runtime_path = m.join_path server_dir "runtime.json";
          wake_session_key = s.wake_session_key;
        })),
  )

  unfoldable pub read_gateway :
      Option String × Option String → StoredGatewayConfig → Result ConfigError GatewayConfig
  unfolding require_gateway_client_id normalize_gateway_client_mode normalize_scopes
  read_gateway (shared_token, shared_password) g =
      require_gateway_client_id g.client_id >>= λ client_id.
      let scopes = normalize_scopes (get_or g.requested_scopes ("operator.write" ∷ [])) in
      bail_if (not (is_operator_write scopes)) wrong_requested_scopes >>= λ _. ok (record {
        ws_url = get_or g.ws_url "ws://127.0.0.1:18789";
        client_id = client_id;
        client_mode = normalize_gateway_client_mode g.client_mode;
        display_name = get_or g.display_name "Subspace Daemon";
        device_id = g.device_id;
        shared_token = shared_token;
        shared_password = shared_password;
        requested_role = get_or g.requested_role "operator";
        requested_scopes = scopes;
      })

  unfoldable pub read_retry : StoredRetryConfig R → RetryConfig R
  read_retry r = record {
    base_ms = get_or r.base_ms 1000;
    max_ms = get_or r.max_ms 60000;
    jitter_ratio = get_or r.jitter_ratio m.default_jitter_ratio;
    storm_guard = record {
      failure_window_ms = get_or r.storm_guard.failure_window_ms 300000;
      consecutive_failure_threshold = get_or r.storm_guard.consecutive_failure_threshold 10;
      cooldown_ms = get_or r.storm_guard.cooldown_ms 300000;
      max_cooldown_ms = get_or r.storm_guard.max_cooldown_ms 3600000;
    };
  }

  unfoldable pub read_storage : StoredStorageConfig → StorageConfig P
  unfolding expand_tilde default_database_path default_artifact_root
  read_storage s = record {
    database_path =
        get_or (option_map (λ v. expand_tilde (m.path_of v)) s.database_path) default_database_path;
    artifact_root =
        get_or (option_map (λ v. expand_tilde (m.path_of v)) s.artifact_root) default_artifact_root;
    auto_migrate = get_or s.auto_migrate true;
  }

  unfoldable pub read_backend : EmbeddingBackendConfig → EmbeddingBackendConfig
  unfolding expand_tilde
  read_backend b = record b { exec_path = m.to_string_lossy (expand_tilde (m.path_of b.exec_path)) }

  unfoldable pub read_servers :
      AppPaths P → List StoredServerConfig → Result ConfigError (List (ServerConfig P))
  unfolding keyed_loop read_server
  read_servers paths servers = keyed_loop (read_server paths) duplicate_base_url 0 [] servers

  unfoldable pub from_stored : StoredConfig R → AppPaths P → Result ConfigError (Config P R)
  unfolding load_local_gateway_auth read_gateway read_servers read_backend trimmed read_retry
      read_storage normalize_sinks normalize_hard_failure_hooks
  from_stored stored paths = ok_or m.home_dir no_home_directory >>= λ home.
      load_local_gateway_auth (m.join_path (m.join_path home ".openclaw") "openclaw.json")
      >>= λ auth. read_gateway auth stored.gateway >>= λ gateway.
          read_servers paths stored.servers >>= λ servers. normalize_sinks stored.sinks >>= λ sinks.
          normalize_hard_failure_hooks stored.hard_failure_hooks >>= λ hooks. ok (record {
            gateway = gateway;
            servers = servers;
            attention = record {
              local_pack_paths = stored.attention.local_pack_paths;
              embedding_backends = map read_backend stored.attention.embedding_backends;
            };
            wake_session_key = get_or stored.routing "agent:main:main";
            replay = record {
              dedupe_window_size = get_or stored.replay.dedupe_window_size 500;
              discard_before_ts = trimmed stored.replay.discard_before_ts;
            };
            logging = record {
              level = get_or stored.logging.level "info";
              json = get_or stored.logging.json true;
            };
            retry = read_retry stored.retry;
            storage = read_storage stored.storage;
            sinks = sinks;
            hard_failure_hooks = hooks;
            paths = paths;
          })
