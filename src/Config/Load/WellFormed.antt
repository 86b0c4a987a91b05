-- ===== src/Config/Load/WellFormed.antt =====
-- What a configuration that was loaded satisfies.
use mathlib.Core.Path.{subst}
use subspace_daemon.Base.{
  >>=-eq-ok, List, Option, Option-cases, String, [], ap, arith, bail_if, bail_if-ok, eq_iff, get_or,
  inl, inr, map, not, ok, ok-inj, ok_pair-inj, refl, sym, true, ℕ, ◌↔◌, ◌∙◌, ◌∷◌, ◌≡◌,
}
use subspace_daemon.Config.Error.{
  duplicate_base_url, duplicate_sink_key, duplicate_hook_key, wrong_requested_scopes,
  no_home_directory,
}
use subspace_daemon.Config.Keyed.{Distinct, AllAt, keyed_loop_accepts}
use subspace_daemon.Config.Entries.{
  trimmed, read_sink, read_hook, normalize_sinks, normalize_hard_failure_hooks,
}
use subspace_daemon.Config.Entries.Accepted.{
  IsSinkOf, IsHookOf, normalize_sinks_accepts, normalize_hard_failure_hooks_accepts,
}
use subspace_daemon.Config.Url.{
  ok_or, canonicalize_base_url, derive_subspace_ws_url, derive_server_key,
}
use subspace_daemon.Config.Stored.{
  StoredGatewayConfig, StoredServerConfig, StoredConfig, GatewayConfig, ServerConfig, AppPaths,
  Config,
}
use subspace_daemon.Config.Load.{
  Machine, require_gateway_client_id, is_operator_write, normalize_scopes, load_local_gateway_auth,
  default_registration_name, read_server, read_servers, read_gateway, from_stored,
}

require_gateway_client_id-same :
    (raw : Option String) {id : String}
    → require_gateway_client_id raw ≡ ok id
    → id ≡ "gateway-client"
unfolding require_gateway_client_id
require_gateway_client_id-same raw h = elim (Option-cases (trimmed raw)) [
  | inl e ↦ ground (arith, e, h)
  | inr (other, e) ↦ ground (arith, e, h)
]

is_operator_write-same :
    (scopes : List String) → is_operator_write scopes ≡ true → scopes ≡ "operator.write" ∷ []
is_operator_write-same [] h = absurd (ground arith)
is_operator_write-same (s ∷ []) h = ap (λ x. x ∷ []) ((eq_iff s "operator.write").0 h)
is_operator_write-same (s ∷ t ∷ ts) h = absurd (ground arith)

module _ {P N R : Type 0} (m : Machine P N R) where
  -- The daemon asks the gateway for no other scope and under no other name.
  abbrev pub IsFixedGateway : GatewayConfig → Type 0
  IsFixedGateway g = (g.client_id ≡ "gateway-client") × (g.requested_scopes ≡ "operator.write" ∷ [])

  read_gateway-IsFixedGateway :
      (auth : Option String × Option String) (stored : StoredGatewayConfig) {g : GatewayConfig}
      → read_gateway m auth stored ≡ ok g
      → IsFixedGateway g
  unfolding read_gateway
  read_gateway-IsFixedGateway auth stored h =
      let scopes = normalize_scopes (get_or stored.requested_scopes ("operator.write" ∷ [])) in
      let (id, required, h1) = >>=-eq-ok (require_gateway_client_id stored.client_id) _ h in
      let (u, operator, h2) =
        >>=-eq-ok (bail_if (not (is_operator_write scopes)) wrong_requested_scopes) _ h1 in
      subst IsFixedGateway (ok-inj h2) (
        require_gateway_client_id-same stored.client_id required,
        is_operator_write-same scopes (ground (arith, bail_if-ok wrong_requested_scopes operator)),
      )

  -- The server that an entry stands for: its names are those of its canonical URL, and its files
  -- are in the directory of its key.
  abbrev pub IsServerOf : AppPaths P → ℕ → StoredServerConfig → ServerConfig P → Type 0
  IsServerOf paths index stored server =
      let dir = m.join_path (m.join_path paths.root "servers") server.server_key in
      (canonicalize_base_url m.parse_url stored.base_url ≡ ok server.base_url)
      × (derive_server_key m.parse_url server.base_url ≡ ok server.server_key)
      × (derive_subspace_ws_url m.parse_url server.base_url ≡ ok server.websocket_url)
      × (server.enabled ≡ get_or stored.enabled true)
      × (server.registration_name ≡ get_or stored.registration_name (default_registration_name m))
      × (server.identity ≡ stored.identity)
      × (server.local_pack_paths ≡ stored.local_pack_paths)
      × (server.session_path ≡ m.join_path dir "subspace-session.json")
      × (server.runtime_path ≡ m.join_path dir "runtime.json")
      × (server.wake_session_key ≡ stored.wake_session_key)

  read_server-IsServerOf :
      (paths : AppPaths P) (i : ℕ) (s : StoredServerConfig) (k : String) (t : ServerConfig P)
      → read_server m paths i s ≡ ok (k, ok t)
      → (k ≡ t.base_url) × IsServerOf paths i s t
  unfolding read_server
  read_server-IsServerOf paths i s k t h =
      let (base_url, found, h1) = >>=-eq-ok (canonicalize_base_url m.parse_url s.base_url) _ h in
      let made = ok_pair-inj h1 in
      let (server_key, keyed, h2) = >>=-eq-ok (derive_server_key m.parse_url base_url) _ made.1 in
      let (websocket_url, derived, h3) =
        >>=-eq-ok (derive_subspace_ws_url m.parse_url base_url) _ h2 in
      (
        sym made.0 ∙ ap (λ x. x.base_url) (ok-inj h3),
        subst (IsServerOf paths i s) (ok-inj h3)
            (found, keyed, derived, refl, refl, refl, refl, refl, refl, refl),
      )

  IsServerOf-read_server :
      (paths : AppPaths P) (i : ℕ) (s : StoredServerConfig) (t : ServerConfig P)
      → IsServerOf paths i s t
      → read_server m paths i s ≡ ok (t.base_url, ok t)
  unfolding read_server
  IsServerOf-read_server paths i s t (u, k, w, e, n, d, l, sp, rp, ws) =
      rw (read_server, u, k, w, sym e, sym n, sym d, sym l, sym sp, sym rp, sym ws) refl

  abbrev pub AreServersOf : AppPaths P → List StoredServerConfig → List (ServerConfig P) → Type 0
  AreServersOf paths stored servers =
      AllAt (read_server m paths) duplicate_base_url (λ s. s.base_url) (IsServerOf paths) 0 stored
        servers
      × Distinct (map (λ s. s.base_url) servers)

  -- The servers of a configuration are accepted exactly where every entry has a URL whose names
  -- can be derived, and no two entries have the same canonical URL.
  pub read_servers_accepts :
      (paths : AppPaths P) (stored : List StoredServerConfig) (servers : List (ServerConfig P))
      → (read_servers m paths stored ≡ ok servers) ↔ AreServersOf paths stored servers
  unfolding read_servers
  read_servers_accepts paths stored servers =
      keyed_loop_accepts (read_server m paths) duplicate_base_url (λ s. s.base_url)
        (IsServerOf paths) (read_server-IsServerOf paths) (IsServerOf-read_server paths) stored
        servers

  abbrev pub IsWellFormed : StoredConfig R → AppPaths P → Config P R → Type 0
  IsWellFormed stored paths c =
      IsFixedGateway c.gateway
      × AreServersOf paths stored.servers c.servers
      × (AllAt read_sink duplicate_sink_key (λ s. s.key) IsSinkOf 0 (get_or stored.sinks []) c.sinks
          × Distinct (map (λ s. s.key) c.sinks))
      × (AllAt read_hook duplicate_hook_key (λ h. h.key) IsHookOf 0
            (get_or stored.hard_failure_hooks []) c.hard_failure_hooks
          × Distinct (map (λ h. h.key) c.hard_failure_hooks))

  -- A configuration that is loaded asks the gateway for `operator.write` only, its servers, sinks
  -- and hooks are those of its entries, and no two servers have the same URL, no two sinks and no
  -- two hooks the same key.
  pub from_stored-IsWellFormed :
      (stored : StoredConfig R) (paths : AppPaths P) (c : Config P R)
      → from_stored m stored paths ≡ ok c
      → IsWellFormed stored paths c
  unfolding from_stored
  from_stored-IsWellFormed stored paths c h =
      let (home, h0, h1) = >>=-eq-ok (ok_or m.home_dir no_home_directory) _ h in
      let openclaw = m.join_path (m.join_path home ".openclaw") "openclaw.json" in
      let (auth, h2, h3) = >>=-eq-ok (load_local_gateway_auth m openclaw) _ h1 in
      let (gateway, asked, h4) = >>=-eq-ok (read_gateway m auth stored.gateway) _ h3 in
      let (servers, served, h5) = >>=-eq-ok (read_servers m paths stored.servers) _ h4 in
      let (sinks, sunk, h6) = >>=-eq-ok (normalize_sinks stored.sinks) _ h5 in
      let (hooks, hooked, h7) =
        >>=-eq-ok (normalize_hard_failure_hooks stored.hard_failure_hooks) _ h6 in
      subst (IsWellFormed stored paths) (ok-inj h7) (
        read_gateway-IsFixedGateway auth stored.gateway asked,
        (read_servers_accepts paths stored.servers servers).0 served,
        (normalize_sinks_accepts stored.sinks sinks).0 sunk,
        (normalize_hard_failure_hooks_accepts stored.hard_failure_hooks hooks).0 hooked,
      )
