-- ===== src/Gateway/Protocol.antt =====
-- src/gateway/protocol.rs: the frames of the gateway's socket. The readers and writers that serde
-- generates are parameters.
use subspace_daemon.Base.{Bool, List, Option, String, [], decimal, get_or, join, trim, ℕ, ◌∷◌}
use subspace_daemon.Base.Json.{Json}

abbrev pub protocol_version : ℕ
protocol_version = 4

pub record ConnectClient : Type 0 where
  pub id : String
  pub display_name : Option String
  pub version : String
  pub platform : String
  pub device_family : Option String
  pub mode : String
  pub instance_id : Option String

pub record DeviceAuthPayload : Type 0 where
  pub id : String
  pub public_key : String
  pub signature : String
  pub signed_at : ℕ
  pub nonce : String

pub record AuthPayload : Type 0 where
  pub token : Option String
  pub bootstrap_token : Option String
  pub device_token : Option String
  pub password : Option String

pub record ConnectParams (N : Type 0) : Type 0 where
  pub min_protocol : ℕ
  pub max_protocol : ℕ
  pub client : ConnectClient
  pub caps : List String
  pub commands : Option (List String)
  pub permissions : Option (Json N)
  pub path_env : Option String
  pub role : String
  pub scopes : List String
  pub device : Option DeviceAuthPayload
  pub auth : Option AuthPayload

-- The parameters of a request, before they are made a JSON value.
pub data Params (N : Type 0) : Type 0 where
  connect : ConnectParams N → Params N
  chat : String → String → String → Params N

pub record RequestFrame (N : Type 0) : Type 0 where
  pub frame_type : String
  pub id : String
  pub method : String
  pub params : Params N

pub record GatewayError (N : Type 0) : Type 0 where
  pub code : Option String
  pub message : String
  pub details : Option (Json N)

pub record ResponseFrame (N : Type 0) : Type 0 where
  pub frame_type : String
  pub id : String
  pub is_ok : Bool
  pub payload : Json N
  pub error : Option (GatewayError N)

pub record EventFrame (N : Type 0) : Type 0 where
  pub frame_type : String
  pub event : String
  pub payload : Json N
  pub seq : Option ℕ

pub record HelloAuth : Type 0 where
  pub device_token : String
  pub role : String
  pub scopes : List String

pub record HelloOk (N : Type 0) : Type 0 where
  pub hello_type : String
  pub protocol : ℕ
  pub server : Option (Json N)
  pub features : Option (Json N)
  pub snapshot : Option (Json N)
  pub auth : Option HelloAuth
  pub tick_interval_ms : ℕ

-- `to_lowercase` is a parameter.
unfoldable pub build_device_auth_payload_v3 :
    (String → String)
    → String
    → String
    → String
    → String
    → List String
    → ℕ
    → Option String
    → String
    → String
    → Option String
    → String
unfolding decimal trim join
build_device_auth_payload_v3 to_lowercase device_id client_id client_mode role scopes signed_at_ms
      token nonce platform device_family =
    join "|" (
      "v3"
      ∷ device_id
      ∷ client_id
      ∷ client_mode
      ∷ role
      ∷ join "," scopes
      ∷ decimal signed_at_ms
      ∷ get_or token ""
      ∷ nonce
      ∷ to_lowercase (trim platform)
      ∷ to_lowercase (trim (get_or device_family ""))
      ∷ [])
