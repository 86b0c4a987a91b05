-- ===== src/Config/Entries.antt =====
-- src/config.rs: the entries of `sinks` and `hard_failure_hooks`.
pub mod Accepted
use subspace_daemon.Base.{
  Bool, List, Option, Result, String, [], and_then, append_text, bail_if, decimal, err, get_or,
  if◌then◌else◌, is_empty_text, none, ok, some, trim, true, ℕ, ◌+◌, ◌==◌, ◌>>=◌,
}
use subspace_daemon.HardFailure.{HardFailureHookConfig}
use subspace_daemon.Storage.Tables.{SinkConfig, SinkKind, db, agent_session_wake}
use subspace_daemon.Config.Error.{
  ConfigError, unsupported_sink_kind, duplicate_sink_key, empty_sink_key, duplicate_hook_key,
  empty_hook_key, empty_hook_command,
}
use subspace_daemon.Config.Keyed.{keyed_loop}

pub record StoredSinkConfig : Type 0 where
  pub key : Option String
  pub kind : String
  pub enabled : Option Bool
  pub destination : Option String

pub record StoredHardFailureHookConfig : Type 0 where
  pub key : Option String
  pub command : String
  pub args : List String
  pub env : List (String × String)
  pub template : Option String
  pub timeout_ms : Option ℕ
  pub throttle_ms : Option ℕ
  pub enabled : Option Bool

-- `map(|value| value.trim().to_string()).filter(|value| !value.is_empty())`
unfoldable pub trimmed : Option String → Option String
unfolding trim
trimmed value = and_then value (λ v. let t = trim v in if is_empty_text t then none else some t)

-- `SinkKind::parse`
unfoldable pub parse : String → Result ConfigError SinkKind
unfolding trim
parse raw =
    let t = trim raw in
    if t == "db"
    then ok db
    else if t == "agent_session_wake"
    then ok agent_session_wake
    else err (unsupported_sink_kind t)

-- `SinkKind::as_str`
unfoldable pub as_str : SinkKind → String
as_str db = "db"
as_str agent_session_wake = "agent_session_wake"

unfoldable pub default_key : SinkKind → String
unfolding as_str
default_key kind = as_str kind

-- The loop of `normalize_sinks`, for one entry.
unfoldable pub read_sink :
    ℕ → StoredSinkConfig → Result ConfigError (String × Result ConfigError SinkConfig)
unfolding parse default_key trim trimmed
read_sink index s = parse s.kind >>= λ kind.
    let key = trim (get_or s.key (default_key kind)) in
    bail_if (is_empty_text key) empty_sink_key >>= λ _. ok (
      key,
      ok (record {
        key = key;
        kind = kind;
        enabled = get_or s.enabled true;
        destination = trimmed s.destination;
      }),
    )

unfoldable pub normalize_sinks :
    Option (List StoredSinkConfig) → Result ConfigError (List SinkConfig)
unfolding keyed_loop read_sink
normalize_sinks stored = keyed_loop read_sink duplicate_sink_key 0 [] (get_or stored [])

-- The loop of `normalize_hard_failure_hooks`, for one entry.
unfoldable pub read_hook :
    ℕ
    → StoredHardFailureHookConfig
    → Result ConfigError (String × Result ConfigError HardFailureHookConfig)
unfolding trim decimal
read_hook index h =
    let key = trim (get_or h.key (append_text "hook-" (decimal (index + 1)))) in
    let command = trim h.command in
    bail_if (is_empty_text key) empty_hook_key >>= λ _. ok (
      key,
      bail_if (is_empty_text command) empty_hook_command >>= λ _. ok (record {
        key = key;
        command = command;
        args = h.args;
        env = h.env;
        template = get_or h.template "{{payload}}";
        timeout_ms = get_or h.timeout_ms 10000;
        throttle_ms = get_or h.throttle_ms 300000;
        enabled = get_or h.enabled true;
      }),
    )

unfoldable pub normalize_hard_failure_hooks :
    Option (List StoredHardFailureHookConfig) → Result ConfigError (List HardFailureHookConfig)
unfolding keyed_loop read_hook
normalize_hard_failure_hooks stored =
    keyed_loop read_hook duplicate_hook_key 0 [] (get_or stored [])
