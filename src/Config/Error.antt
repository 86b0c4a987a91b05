-- ===== src/Config/Error.antt =====
-- src/config.rs: the errors of reading a configuration, one for each message. An error of the
-- URL library, of the file system or of the JSON library keeps its text.
use subspace_daemon.Base.{String}

pub data ConfigError : Type 0 where
  unsupported_sink_kind duplicate_sink_key : String → ConfigError
  empty_sink_key : ConfigError
  duplicate_hook_key : String → ConfigError
  empty_hook_key empty_hook_command : ConfigError
  missing_base_url userinfo_in_url query_or_fragment_in_url : ConfigError
  missing_scheme missing_host missing_port : ConfigError
  unsupported_url_scheme duplicate_base_url : String → ConfigError
  invalid_base_url unreadable unparsable : String → ConfigError
  unknown_gateway_client_id : String → ConfigError
  wrong_requested_scopes : ConfigError
  no_home_directory no_parent_directory : ConfigError
