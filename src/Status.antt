-- ===== src/Status.antt =====
-- src/supervisor.rs, `DaemonStatus`: the health that the daemon reports, one entry for each server.
-- Timestamps are milliseconds; the parser of RFC 3339 and the clock are parameters.
pub mod Updates
use subspace_daemon.Base.{
  Bool, List, Option, String, [], all, false, get_or, if◌then◌else◌, insert, leb, lookup, ltb, none,
  not, option_map, some, true, values, ℕ, ◌&&◌, ◌+◌, ◌==◌, ◌||◌, ◌∷◌,
}
use subspace_daemon.Attention.Layer
use subspace_daemon.Attention.Layer.{AttentionLayer}
use subspace_daemon.Runtime.Store.{Rfc3339}

pub record AttentionHealth : Type 0 where
  pub receptor_count : ℕ
  pub interest_receptor_count : ℕ
  pub veto_receptor_count : ℕ
  pub wildcard_receptor_count : ℕ
  pub delivery_mode : String
  pub degraded : Bool

pub record ServerHealth : Type 0 where
  pub server : String
  pub server_key : String
  pub subspace_state : String
  pub session_expires_at : Option String
  pub veto_enforcement_state : String
  pub attention : AttentionHealth
  pub consecutive_failures : Option ℕ
  pub cooldown_ms : Option ℕ
  pub next_attempt_at : Option String
  pub last_error_kind : Option String

pub record DaemonStatus : Type 0 where
  pub gateway_state : String
  pub wake_session_key : String
  pub servers : List (String × ServerHealth)

-- the fields of a configured server that the status reads
pub record ServerName : Type 0 where
  pub base_url : String
  pub server_key : String
  pub enabled : Bool

-- `AttentionHealth::not_configured`
abbrev pub not_configured : AttentionHealth
not_configured = record {
  receptor_count = 0;
  interest_receptor_count = 0;
  veto_receptor_count = 0;
  wildcard_receptor_count = 0;
  delivery_mode = "no_active_receptors";
  degraded = false;
}

-- `AttentionHealth::veto_enforcement_state`
unfoldable pub veto_enforcement_state : AttentionHealth → String
veto_enforcement_state a =
    if a.delivery_mode == "veto_enforcement_unavailable"
    then "unavailable"
    else if ltb 0 a.veto_receptor_count
    then "ready"
    else "not_configured"

-- `AttentionHealth::from_layer`
unfoldable pub from_layer : {F : Type 0} → AttentionLayer F → AttentionHealth
from_layer l = record {
  receptor_count = Layer.receptor_count l;
  interest_receptor_count = Layer.interest_receptor_count l;
  veto_receptor_count = Layer.veto_receptor_count l;
  wildcard_receptor_count = Layer.wildcard_receptor_count l;
  delivery_mode = Layer.delivery_mode l;
  degraded = l.degraded;
}

-- an entry with nothing but its names and its state
abbrev pub fresh_health : String → String → String → ServerHealth
fresh_health base_url server_key state = record {
  server = base_url;
  server_key = server_key;
  subspace_state = state;
  session_expires_at = none;
  veto_enforcement_state = "not_configured";
  attention = not_configured;
  consecutive_failures = none;
  cooldown_ms = none;
  next_attempt_at = none;
  last_error_kind = none;
}

unfoldable pub initial_servers :
    List ServerName → List (String × ServerHealth) → List (String × ServerHealth)
initial_servers [] m = m
initial_servers (s ∷ ss) m = initial_servers ss (
    if s.enabled
    then insert s.base_url (fresh_health s.base_url s.server_key "connecting") m
    else m)

-- `DaemonStatus::new`
unfoldable pub new : String → List ServerName → DaemonStatus
unfolding initial_servers
new wake_session_key servers = record {
  gateway_state = "connecting";
  wake_session_key = wake_session_key;
  servers = initial_servers servers [];
}

unfoldable pub set_gateway_state : String → DaemonStatus → DaemonStatus
set_gateway_state value d = record d { gateway_state = value }

abbrev store_health : String → ServerHealth → DaemonStatus → DaemonStatus
store_health base_url h d = record d { servers = insert base_url h d.servers }

-- what `set_server_state` and `set_server_reconnect_cooldown` read of the entry before
abbrev pub known_health : String → DaemonStatus → ServerHealth
known_health base_url d = get_or (lookup base_url d.servers) (fresh_health base_url "" "connecting")

unfoldable pub set_server_state : String → String → String → DaemonStatus → DaemonStatus
set_server_state base_url server_key value d =
    let old = known_health base_url d in
    store_health base_url
      (record (fresh_health base_url server_key value) {
        session_expires_at = old.session_expires_at;
        veto_enforcement_state = old.veto_enforcement_state;
        attention = old.attention;
      })
      d

unfoldable pub set_server_reconnect_cooldown :
    String → String → ℕ → ℕ → String → Option String → DaemonStatus → DaemonStatus
set_server_reconnect_cooldown base_url server_key failures cooldown_ms next_attempt_at kind d =
    let old = known_health base_url d in
    store_health base_url
      (record (fresh_health base_url server_key "reconnect_cooldown") {
        session_expires_at = old.session_expires_at;
        veto_enforcement_state = old.veto_enforcement_state;
        attention = old.attention;
        consecutive_failures = some failures;
        cooldown_ms = some cooldown_ms;
        next_attempt_at = some next_attempt_at;
        last_error_kind = kind;
      })
      d

unfoldable pub set_server_veto_enforcement_state :
    String → String → String → DaemonStatus → DaemonStatus
set_server_veto_enforcement_state base_url server_key state d = elim (lookup base_url d.servers) [
  | some old ↦
      store_health base_url (record old { server_key = server_key; veto_enforcement_state = state })
        d
  | none ↦
      store_health base_url
        (record (fresh_health base_url server_key "connecting") { veto_enforcement_state = state })
        d
]

unfoldable pub set_server_attention_health :
    String → String → AttentionHealth → DaemonStatus → DaemonStatus
set_server_attention_health base_url server_key attention d = elim (lookup base_url d.servers) [
  | some old ↦
      store_health base_url
        (record old {
          server_key = server_key;
          veto_enforcement_state = veto_enforcement_state attention;
          attention = attention;
        })
        d
  | none ↦
      store_health base_url
        (record (fresh_health base_url server_key "connecting") {
          veto_enforcement_state = veto_enforcement_state attention;
          attention = attention;
        })
        d
]

unfoldable pub set_server_session_expires_at :
    String → String → Option String → DaemonStatus → DaemonStatus
set_server_session_expires_at base_url server_key expires d = elim (lookup base_url d.servers) [
  | some old ↦
      store_health base_url (record old { server_key = server_key; session_expires_at = expires }) d
  | none ↦
      store_health base_url
        (record (fresh_health base_url server_key "connecting") { session_expires_at = expires }) d
]

unfoldable pub server_state : String → DaemonStatus → Option String
server_state base_url d = option_map (λ h. h.subspace_state) (lookup base_url d.servers)

unfoldable pub servers_snapshot : DaemonStatus → List ServerHealth
servers_snapshot d = values d.servers

abbrev pub day_ms : ℕ
day_ms = 86400000

module _ (clock : Rfc3339) (now : ℕ) where
  -- `expires_at - now <= 24 hours`, over differences that may be negative
  unfoldable pub session_expires_soon : Option String → Bool
  session_expires_soon none = true
  session_expires_soon (some text) = elim (clock.parse text) [
    | none ↦ true
    | some expires ↦ leb expires (now + day_ms)
  ]

  unfoldable pub is_server_healthy : ServerHealth → Bool
  unfolding session_expires_soon
  is_server_healthy h =
      if h.subspace_state == "live"
      then not (session_expires_soon h.session_expires_at)
      else h.subspace_state == "reconnecting"
        || h.subspace_state == "reconnect_cooldown"
        || h.subspace_state == "subspace_auth_required"

  unfoldable pub is_healthy : DaemonStatus → Bool
  unfolding is_server_healthy
  is_healthy d =
      (d.gateway_state == "live" || d.gateway_state == "pairing_required")
      && all is_server_healthy (values d.servers)
