-- ===== src/Examples/Tokens.antt =====
-- The tokens of a device on concrete files.
use subspace_daemon.Base.{[], ◌∷◌}
use subspace_daemon.Gateway.Tokens.{AuthPath, holds}

abbrev path : AuthPath
path = holds (record {
  version = 1;
  device_id = "old";
  tokens =
      ("operator", record { token = "t0"; role = "operator"; scopes = []; updated_at_ms = 1 }) ∷ [];
})
