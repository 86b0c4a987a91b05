-- ===== src/Gateway/Tokens.antt =====
-- src/gateway/device_auth_store.rs: the file of the tokens of a device. The JSON library is taken
-- to read back what was written: a file holds a value, or a text that is no such value.
pub mod Laws
use subspace_daemon.Base.{
  Bool, List, Option, Result, String, [], err, false, filter, if◌then◌else◌, insert, is_empty_text,
  lookup, map, none, not, ok, remove, trim, true, ℕ, ◌==◌,
}
use subspace_daemon.Config.Load.{sort_texts, dedup}

-- `DeviceAuthEntry`, and `DeviceAuthEntryWire` in the file
pub record DeviceAuthEntry : Type 0 where
  pub token : String
  pub role : String
  pub scopes : List String
  pub updated_at_ms : ℕ

pub record DeviceAuthFile : Type 0 where
  pub version : ℕ
  pub device_id : String
  pub tokens : List (String × DeviceAuthEntry)

-- What is at the path.
pub data AuthPath : Type 0 where
  missing unreadable unparsable : AuthPath
  holds : DeviceAuthFile → AuthPath

pub data AuthError : Type 0 where
  read_failed parse_failed write_failed : AuthError

-- `write_json_atomic`, which may fail and then leaves the path as it is
abbrev pub write : Bool → DeviceAuthFile → AuthPath → AuthPath × Result AuthError (Unit {0})
write true file path = (holds file, ok tt)
write false file path = (path, err write_failed)

unfoldable pub load_token : String → String → AuthPath → Option DeviceAuthEntry
load_token device_id role missing = none
load_token device_id role unreadable = none
load_token device_id role unparsable = none
load_token device_id role (holds file) =
    if file.device_id == device_id then lookup role file.tokens else none

unfoldable pub fresh_file : String → DeviceAuthFile
fresh_file device_id = record { version = 1; device_id = device_id; tokens = [] }

-- the file that `store_token` starts from
unfoldable pub stored_file : String → AuthPath → Result AuthError DeviceAuthFile
unfolding fresh_file
stored_file device_id missing = ok (fresh_file device_id)
stored_file device_id unreadable = err read_failed
stored_file device_id unparsable = ok (fresh_file device_id)
stored_file device_id (holds file) = ok file

unfoldable pub normalized_scopes : List String → List String
unfolding trim sort_texts dedup
normalized_scopes scopes =
    dedup (sort_texts (filter (λ s. not (is_empty_text s)) (map trim scopes)))

-- The arguments are whether the write succeeds, `current_time_ms()` and those of the source.
unfoldable pub store_token :
    Bool
    → ℕ
    → String
    → String
    → String
    → List String
    → AuthPath
    → AuthPath × Result AuthError (Unit {0})
unfolding stored_file normalized_scopes
store_token writable now device_id role token scopes path = elim (stored_file device_id path) [
  | err e ↦ (path, err e)
  | ok file ↦
      let entry : DeviceAuthEntry = record {
        token = token;
        role = role;
        scopes = normalized_scopes scopes;
        updated_at_ms = now;
      } in
      write writable (record file { device_id = device_id; tokens = insert role entry file.tokens })
        path
]

unfoldable pub clear_token :
    Bool → String → String → AuthPath → AuthPath × Result AuthError (Unit {0})
clear_token writable device_id role missing = (missing, ok tt)
clear_token writable device_id role unreadable = (unreadable, err read_failed)
clear_token writable device_id role unparsable = (unparsable, err parse_failed)
clear_token writable device_id role (holds file) =
    let written = write writable (record file { tokens = remove role file.tokens }) (holds file) in
    if file.device_id == device_id then written else (holds file, ok tt)
