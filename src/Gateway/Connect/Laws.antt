-- ===== src/Gateway/Connect/Laws.antt =====
-- What a connection of the gateway authenticates with, after the responses to the one before.
use subspace_daemon.Base.{
  Bool, Option, ap, eq_refl, false, if◌then◌else◌, none, ok, option_map, refl, some, true, ◌==◌,
  ◌||◌, ◌∙◌, ◌≡◌, ◌≢◌,
}
use subspace_daemon.Config.Stored.{GatewayConfig}
use subspace_daemon.Gateway.Tokens.{AuthPath, clear_token}
use subspace_daemon.Gateway.Tokens.Laws.{load_token-clear_token}
use subspace_daemon.Gateway.Protocol.{GatewayError}
use subspace_daemon.Gateway.Connect.{
  auth_failed, Device, Host, Opening, Opened, select_connect_auth, connect_auth, on_refused,
  detail_code, stored_token,
}

module _ {N : Type 0} (host : Host N) (config : GatewayConfig) (device : Device) where
  refused-cleared :
      (b c : Bool) (x y z : Opening N × Opened host config device)
      → x.1 ≢ some (ok auth_failed)
      → z.1 ≢ some (ok auth_failed)
      → (if b then x else if c then y else z).1 ≡ some (ok auth_failed)
      → (if b then x else if c then y else z).0 ≡ y.0
  refused-cleared true c x y z not_x not_z h = absurd (not_x h)
  refused-cleared false true x y z not_x not_z h = refl
  refused-cleared false false x y z not_x not_z h = absurd (not_z h)

  cleared-on_refused :
      (writable : Bool) (error : Option (GatewayError N)) (s : Opening N)
      → (on_refused host config device writable error s).1 ≡ some (ok auth_failed)
      → (on_refused host config device writable error s).0.path
        ≡ (clear_token writable device.device_id config.requested_role s.path).0
  unfolding on_refused
  cleared-on_refused writable error s h =
      let code = detail_code error in
      ap (λ t. t.path)
        (refused-cleared (code == "PAIRING_REQUIRED")
          (code == "AUTH_TOKEN_MISMATCH" || code == "AUTH_DEVICE_TOKEN_MISMATCH") _ _ _ (λ q. cc q)
          (λ q. cc q) h)

  connect_auth-unshared :
      (path : AuthPath)
      → config.shared_token ≡ none
      → config.shared_password ≡ none
      → connect_auth host config device path
        ≡ select_connect_auth none none (stored_token host config device path)
  unfolding connect_auth
  connect_auth-unshared path no_token no_password =
      ap
        (λ shared.
          select_connect_auth shared config.shared_password (stored_token host config device path))
        no_token
      ∙ ap (λ shared. select_connect_auth none shared (stored_token host config device path))
          no_password

  -- A connection was refused for a mismatch of a token, and the file of the tokens could be
  -- written. Where the configuration has no shared token and no shared password, the next
  -- connection has nothing to authenticate with.
  pub connect_auth-on_refused :
      (writable : Bool) (error : Option (GatewayError N)) (s : Opening N)
      → (on_refused host config device writable error s).1 ≡ some (ok auth_failed)
      → (clear_token writable device.device_id config.requested_role s.path).1 ≡ ok tt
      → config.shared_token ≡ none
      → config.shared_password ≡ none
      → connect_auth host config device (on_refused host config device writable error s).0.path
        ≡ select_connect_auth none none none
  connect_auth-on_refused writable error s refused cleared no_token no_password =
      let loaded =
        load_token-clear_token device.device_id config.requested_role s.path writable cleared
          device.device_id config.requested_role in
      connect_auth-unshared _ no_token no_password
      ∙ ap (λ path. select_connect_auth none none (stored_token host config device path))
          (cleared-on_refused writable error s refused)
      ∙ ap (λ e. select_connect_auth none none (option_map (λ entry. entry.token) e))
          (rw (eq_refl device.device_id, eq_refl config.requested_role) at loaded)
