-- ===== src/Gateway/Connect.antt =====
-- src/gateway/client.rs: how a connection is opened. What the socket gives is a list, an answer of
-- the world is an argument.
pub mod Laws
use subspace_daemon.Base.{
  Bool, List, Option, Result, String, [], and_then, err, get_or, if◌then◌else◌, is_empty_text,
  is_ok, is_some, none, ok, option_map, some, ℕ, ◌&&◌, ◌==◌, ◌||◌, ◌∷◌,
}
use subspace_daemon.Base.Json.{Json, get, as_str}
use subspace_daemon.Config.Stored.{GatewayConfig}
use subspace_daemon.Gateway.Tokens.{
  AuthPath, AuthError, DeviceAuthEntry, load_token, store_token, clear_token,
}
use subspace_daemon.Gateway.Protocol.{
  protocol_version, ConnectClient, DeviceAuthPayload, AuthPayload, ConnectParams, Params, connect,
  chat, RequestFrame, GatewayError, ResponseFrame, EventFrame, HelloAuth, HelloOk,
  build_device_auth_payload_v3,
}
use subspace_daemon.Status.{DaemonStatus, set_gateway_state}
use subspace_daemon.Subspace.Frames.{Message, text, binary, close, ping, pong, frame}

pub record SelectedConnectAuth : Type 0 where
  pub auth_token : Option String
  pub auth_device_token : Option String
  pub auth_password : Option String
  pub signature_token : Option String

pub data DisconnectReason : Type 0 where
  restart pairing_required auth_failed transport : DisconnectReason

-- the identity of the device, with its signature of a text
pub record Device : Type 0 where
  pub device_id : String
  pub public_key_raw_base64url : String
  pub sign_payload : String → String

-- What the process sees of its libraries and its build.
pub record Host (N : Type 0) : Type 0 where
  pub platform : String
  pub version : String
  pub to_lowercase : String → String
  pub read_event : String → Option (EventFrame N)
  pub read_response : String → Option (ResponseFrame N)
  pub read_hello : Json N → Option (HelloOk N)
  pub error_text : AuthError → String

unfoldable pub select_connect_auth :
    Option String → Option String → Option String → SelectedConnectAuth
select_connect_auth (some token) shared_password stored_device_token = record {
  auth_token = some token;
  auth_device_token = none;
  auth_password = none;
  signature_token = some token;
}
select_connect_auth none (some password) stored_device_token = record {
  auth_token = none;
  auth_device_token = none;
  auth_password = some password;
  signature_token = none;
}
select_connect_auth none none (some device_token) = record {
  auth_token = some device_token;
  auth_device_token = some device_token;
  auth_password = none;
  signature_token = some device_token;
}
select_connect_auth none none none = record {
  auth_token = none;
  auth_device_token = none;
  auth_password = none;
  signature_token = none;
}

unfoldable pub gateway_text : Message → Result String String
gateway_text (text t) = ok t
gateway_text (binary (some t)) = ok t
gateway_text (binary none) = err "non-utf8 websocket message"
gateway_text (close reason) = err "websocket closed"
gateway_text ping = ok ""
gateway_text pong = ok ""
gateway_text frame = ok ""

-- What a `select!` of the opening gives: the shutdown, or an item of the socket.
pub data Incoming : Type 0 where
  shutdown ended : Incoming
  failed : String → Incoming
  received : Message → Incoming

-- How a wait ends; it goes on where the given items are over.
pub data Waited (A : Type 0) : Type 0 where
  waits stopped : Waited A
  fails : String → Waited A
  got : A → List Incoming → Waited A

-- the part of the opening connection that changes
pub record Opening (N : Type 0) : Type 0 where
  pub path : AuthPath
  pub status : DaemonStatus
  pub requests : List (RequestFrame N)

unfoldable pub detail_code : {N : Type 0} → Option (GatewayError N) → String
unfolding get as_str
detail_code error =
    let details = and_then error (λ e. e.details) in
    get_or (and_then (and_then details (get "code")) as_str) ""

module _ {N : Type 0} (host : Host N) where
  -- the loop that waits for the challenge, with its nonce
  unfoldable pub wait_challenge : List Incoming → Waited String
  unfolding gateway_text get as_str
  wait_challenge [] = waits
  wait_challenge (shutdown ∷ incoming) = stopped
  wait_challenge (ended ∷ incoming) = fails "gateway closed before connect challenge"
  wait_challenge (failed e ∷ incoming) = fails e
  wait_challenge (received message ∷ incoming) =
      let later = wait_challenge incoming in
      elim (gateway_text message) [
        | err e ↦ fails e
        | ok raw ↦ elim (if is_empty_text raw then none else host.read_event raw) [
          | none ↦ later
          | some event ↦
              if event.frame_type == "event" && event.event == "connect.challenge"
              then elim (and_then (get "nonce" event.payload) as_str) [
                | some nonce ↦ got nonce incoming
                | none ↦ fails "gateway connect challenge missing nonce"
              ]
              else later
        ]
      ]

  -- the loop that waits for the response to the request
  unfoldable pub wait_response : String → List Incoming → Waited (ResponseFrame N)
  unfolding gateway_text
  wait_response connect_id [] = waits
  wait_response connect_id (shutdown ∷ incoming) = stopped
  wait_response connect_id (ended ∷ incoming) = fails "gateway closed during connect"
  wait_response connect_id (failed e ∷ incoming) = fails e
  wait_response connect_id (received message ∷ incoming) =
      let later = wait_response connect_id incoming in
      elim (gateway_text message) [
        | err e ↦ fails e
        | ok raw ↦ elim (if is_empty_text raw then none else host.read_response raw) [
          | none ↦ later
          | some response ↦
              if response.frame_type == "res" && response.id == connect_id
              then got response incoming
              else later
        ]
      ]

  module _ (config : GatewayConfig) (device : Device) where
    abbrev pub stored_token : AuthPath → Option String
    stored_token path =
        option_map (λ entry. entry.token) (load_token device.device_id config.requested_role path)

    -- what the connection authenticates with
    unfoldable pub connect_auth : AuthPath → SelectedConnectAuth
    unfolding select_connect_auth load_token
    connect_auth path =
        select_connect_auth config.shared_token config.shared_password (stored_token path)

    -- the request `connect`
    unfoldable pub connect_request : String → ℕ → String → SelectedConnectAuth → RequestFrame N
    unfolding build_device_auth_payload_v3
    connect_request connect_id signed_at nonce selected = record {
      frame_type = "req";
      id = connect_id;
      method = "connect";
      params = connect (record {
        min_protocol = protocol_version;
        max_protocol = protocol_version;
        client = record {
          id = config.client_id;
          display_name = some config.display_name;
          version = host.version;
          platform = host.platform;
          device_family = none;
          mode = config.client_mode;
          instance_id = none;
        };
        caps = [];
        commands = none;
        permissions = none;
        path_env = none;
        role = config.requested_role;
        scopes = config.requested_scopes;
        device = some (record {
          id = device.device_id;
          public_key = device.public_key_raw_base64url;
          signature = device.sign_payload (
              build_device_auth_payload_v3 host.to_lowercase device.device_id config.client_id
                config.client_mode config.requested_role config.requested_scopes signed_at
                selected.signature_token nonce host.platform none);
          signed_at = signed_at;
          nonce = nonce;
        });
        auth =
            if is_some selected.auth_token
              || is_some selected.auth_device_token
              || is_some selected.auth_password
            then some (record {
              token = selected.auth_token;
              bootstrap_token = none;
              device_token = selected.auth_device_token;
              password = selected.auth_password;
            })
            else none;
      });
    }

    -- What follows the response: nothing where the connection is live. `writable` is whether the
    -- file of the tokens can be written.
    abbrev pub Opened : Type 0
    Opened = Option (Result String DisconnectReason)

    abbrev pub live : Opening N → Opening N × Opened
    live s = (record s { status = set_gateway_state "live" s.status }, none)

    unfoldable pub on_hello : Bool → ℕ → HelloOk N → Opening N → Opening N × Opened
    unfolding store_token set_gateway_state
    on_hello writable now hello s = elim hello.auth [
      | none ↦ live s
      | some auth ↦
          let stored =
            store_token writable now device.device_id auth.role auth.device_token auth.scopes
              s.path in
          elim stored.1 [
            | ok u ↦ live (record s { path = stored.0 })
            | err e ↦ (record s { path = stored.0 }, some (err (host.error_text e)))
          ]
    ]

    -- a response that is not `ok`
    unfoldable pub on_refused : Bool → Option (GatewayError N) → Opening N → Opening N × Opened
    unfolding clear_token set_gateway_state detail_code
    on_refused writable error s =
        let code = detail_code error in
        if code == "PAIRING_REQUIRED"
        then (
          record s { status = set_gateway_state "pairing_required" s.status },
          some (ok pairing_required),
        )
        else if code == "AUTH_TOKEN_MISMATCH" || code == "AUTH_DEVICE_TOKEN_MISMATCH"
        then (
          record s {
            path = (clear_token writable device.device_id config.requested_role s.path).0;
          },
          some (ok auth_failed),
        )
        else (s, some (err (get_or (option_map (λ e. e.message) error) "connect failed")))

    unfoldable pub on_response : Bool → ℕ → ResponseFrame N → Opening N → Opening N × Opened
    unfolding on_hello on_refused
    on_response writable now response s =
        if response.is_ok
        then elim (host.read_hello response.payload) [
          | none ↦ (s, some (err "invalid hello-ok payload"))
          | some hello ↦ on_hello writable now hello s
        ]
        else on_refused writable response.error s
