-- ===== src/Config/Stored.antt =====
-- src/config.rs: the configuration as its file holds it, and as the daemon uses it. `P` is the type
-- of the paths, `R` that of the jitter ratio.
use subspace_daemon.Base.{Bool, List, Option, String, ℕ}
use subspace_daemon.HardFailure.{HardFailureHookConfig}
use subspace_daemon.Attention.Plugin.{EmbeddingBackendConfig}
use subspace_daemon.Attention.Layer.{AttentionConfig}
use subspace_daemon.Runtime.Store.{RetryConfig}
use subspace_daemon.Storage.Tables.{SinkConfig}
use subspace_daemon.Config.Entries.{StoredSinkConfig, StoredHardFailureHookConfig}

pub record StoredGatewayConfig : Type 0 where
  pub ws_url : Option String
  pub client_id : Option String
  pub client_mode : Option String
  pub display_name : Option String
  pub device_id : Option String
  pub requested_role : Option String
  pub requested_scopes : Option (List String)

pub record StoredServerConfig : Type 0 where
  pub base_url : String
  pub registration_name : Option String
  pub identity : Option String
  pub local_pack_paths : Option (List String)
  pub enabled : Option Bool
  pub wake_session_key : Option String

pub record StoredReplayConfig : Type 0 where
  pub dedupe_window_size : Option ℕ
  pub discard_before_ts : Option String

pub record StoredLoggingConfig : Type 0 where
  pub level : Option String
  pub json : Option Bool

pub record StoredStormGuardConfig : Type 0 where
  pub failure_window_ms : Option ℕ
  pub consecutive_failure_threshold : Option ℕ
  pub cooldown_ms : Option ℕ
  pub max_cooldown_ms : Option ℕ

pub record StoredRetryConfig (R : Type 0) : Type 0 where
  pub base_ms : Option ℕ
  pub max_ms : Option ℕ
  pub jitter_ratio : Option R
  pub storm_guard : StoredStormGuardConfig

pub record StoredStorageConfig : Type 0 where
  pub database_path : Option String
  pub artifact_root : Option String
  pub auto_migrate : Option Bool

-- An embedding backend is read as it is stored, but for the tilde in `exec`.
pub record StoredAttentionConfig : Type 0 where
  pub local_pack_paths : List String
  pub embedding_backends : List EmbeddingBackendConfig

-- the sections that `from_stored` reads
pub record StoredConfig (R : Type 0) : Type 0 where
  pub gateway : StoredGatewayConfig
  pub servers : List StoredServerConfig
  pub attention : StoredAttentionConfig
  pub routing : Option String
  pub replay : StoredReplayConfig
  pub logging : StoredLoggingConfig
  pub retry : StoredRetryConfig R
  pub storage : StoredStorageConfig
  pub sinks : Option (List StoredSinkConfig)
  pub hard_failure_hooks : Option (List StoredHardFailureHookConfig)

pub record GatewayConfig : Type 0 where
  pub ws_url : String
  pub client_id : String
  pub client_mode : String
  pub display_name : String
  pub device_id : Option String
  pub shared_token : Option String
  pub shared_password : Option String
  pub requested_role : String
  pub requested_scopes : List String

pub record ServerConfig (P : Type 0) : Type 0 where
  pub base_url : String
  pub websocket_url : String
  pub enabled : Bool
  pub server_key : String
  pub registration_name : String
  pub identity : Option String
  pub local_pack_paths : Option (List String)
  pub session_path : P
  pub runtime_path : P
  pub wake_session_key : Option String

pub record ReplayConfig : Type 0 where
  pub dedupe_window_size : ℕ
  pub discard_before_ts : Option String

pub record LoggingConfig : Type 0 where
  pub level : String
  pub json : Bool

pub record StorageConfig (P : Type 0) : Type 0 where
  pub database_path : P
  pub artifact_root : P
  pub auto_migrate : Bool

pub record AppPaths (P : Type 0) : Type 0 where
  pub root : P
  pub config_path : P
  pub socket_path : P
  pub log_file : P
  pub identities_dir : P
  pub gateway_private_key_path : P
  pub gateway_public_key_path : P
  pub gateway_device_auth_store_path : P
  pub launchd_plist_path : P
  pub state_lock_path : P

pub record Config (P R : Type 0) : Type 0 where
  pub gateway : GatewayConfig
  pub servers : List (ServerConfig P)
  pub attention : AttentionConfig
  pub wake_session_key : String
  pub replay : ReplayConfig
  pub logging : LoggingConfig
  pub retry : RetryConfig R
  pub storage : StorageConfig P
  pub sinks : List SinkConfig
  pub hard_failure_hooks : List HardFailureHookConfig
  pub paths : AppPaths P
