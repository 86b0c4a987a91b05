-- ===== src/Status/Updates.antt =====
-- What the updates of `DaemonStatus` keep that do not set a veto state by itself, and that the two reports of the veto enforcement agree.
use subspace_daemon.Base.{
  Bool, Bool-cases, List, Option, Option-cases, String, [], any, arith, eq_iff, eqb, false, filter,
  get_or, if◌then◌else◌, inl, inr, insert, is_empty, length, lookup, lookup-insert, ltb, none,
  option_map, refl, some, sym, true, ℕ, ◌==◌, ◌∷◌, ◌≡◌,
}
use subspace_daemon.Attention.Receptor.{ComputedReceptor, is_veto}
use subspace_daemon.Attention.Layer
use subspace_daemon.Attention.Layer.{AttentionLayer}
use subspace_daemon.Status.{
  AttentionHealth, ServerHealth, DaemonStatus, ServerName, not_configured, veto_enforcement_state,
  from_layer, fresh_health, known_health, initial_servers, new, set_gateway_state, set_server_state,
  set_server_reconnect_cooldown, set_server_attention_health, set_server_session_expires_at,
  set_server_veto_enforcement_state,
}

pub data Update : Type 0 where
  gateway : String → Update
  state : String → String → String → Update
  cooldown : String → String → ℕ → ℕ → String → Option String → Update
  attention : String → String → AttentionHealth → Update
  session : String → String → Option String → Update
  veto : String → String → String → Update

unfoldable pub apply : Update → DaemonStatus → DaemonStatus
apply (gateway value) = set_gateway_state value
apply (state url key value) = set_server_state url key value
apply (cooldown url key failures ms next kind) =
    set_server_reconnect_cooldown url key failures ms next kind
apply (attention url key a) = set_server_attention_health url key a
apply (session url key expires) = set_server_session_expires_at url key expires
apply (veto url key value) = set_server_veto_enforcement_state url key value

-- the server that an update is about
unfoldable pub target : Update → Option String
target (gateway value) = none
target (state url key value) = some url
target (cooldown url key failures ms next kind) = some url
target (attention url key a) = some url
target (session url key expires) = some url
target (veto url key value) = some url

-- whether it sets the veto state by itself, without the receptors it is the state of
unfoldable pub sets_veto : Update → Bool
sets_veto (gateway value) = false
sets_veto (state url key value) = false
sets_veto (cooldown url key failures ms next kind) = false
sets_veto (attention url key a) = false
sets_veto (session url key expires) = false
sets_veto (veto url key value) = true

unfoldable pub apply_all : List Update → DaemonStatus → DaemonStatus
apply_all [] d = d
apply_all (u ∷ us) d = apply_all us (apply u d)

-- An entry stands under its own server, and its veto state is that of its receptors.
pub record IsEntry (url : String) (h : ServerHealth) : Type 0 where
  pub named : h.server ≡ url
  pub enforced : h.veto_enforcement_state ≡ veto_enforcement_state h.attention

pub record IsConsistent (d : DaemonStatus) : Type 0 where
  pub entry : (url : String) (h : ServerHealth) → lookup url d.servers ≡ some h → IsEntry url h

-- The entry of an unknown server.
not_configured-state : veto_enforcement_state not_configured ≡ "not_configured"
unfolding veto_enforcement_state
not_configured-state = refl

insert-IsConsistent :
    (url : String) (h : ServerHealth) (d : DaemonStatus)
    → IsEntry url h
    → IsConsistent d
    → IsConsistent (record d { servers = insert url h d.servers })
insert-IsConsistent url h d here v = record {
  entry = λ k g e. elim (Bool-cases (url == k)) [
    | inl same ↦ ground (arith, lookup-insert url k h d.servers, eq_iff url k)
    | inr other ↦ v.entry k g (ground (arith, lookup-insert url k h d.servers))
  ];
}

fresh-IsEntry : (url key value : String) → IsEntry url (fresh_health url key value)
fresh-IsEntry url key value = record { named = refl; enforced = sym not_configured-state }

known-IsEntry :
    (url : String) {d : DaemonStatus} → IsConsistent d → IsEntry url (known_health url d)
known-IsEntry url {d} v = elim (Option-cases (lookup url d.servers)) [
  | inl e ↦ rw e (fresh-IsEntry url "" "connecting")
  | inr (h, e) ↦ rw e (v.entry url h e)
]

initial_servers-IsConsistent :
    (ss : List ServerName) (d : DaemonStatus)
    → IsConsistent d
    → IsConsistent (record d { servers = initial_servers ss d.servers })
unfolding initial_servers
initial_servers-IsConsistent [] d v = v
initial_servers-IsConsistent (s ∷ ss) d v = elim (Bool-cases s.enabled) [
  | inl on ↦ rw on (
      initial_servers-IsConsistent ss _
        (insert-IsConsistent s.base_url _ d (fresh-IsEntry s.base_url s.server_key "connecting") v))
  | inr off ↦ rw off (initial_servers-IsConsistent ss d v)
]

-- The status that the daemon starts with is consistent.
new-IsConsistent : (wake : String) (ss : List ServerName) → IsConsistent (new wake ss)
unfolding new lookup
new-IsConsistent wake ss =
    initial_servers-IsConsistent ss
      (record { gateway_state = "connecting"; wake_session_key = wake; servers = [] })
      (record { entry = λ url h e. absurd (ground arith) })

apply-IsConsistent :
    (u : Update) {d : DaemonStatus}
    → sets_veto u ≡ false
    → IsConsistent d
    → IsConsistent (apply u d)
unfolding apply sets_veto set_gateway_state set_server_state set_server_reconnect_cooldown
    set_server_attention_health set_server_session_expires_at
apply-IsConsistent (gateway value) n v = record { entry = v.entry }
apply-IsConsistent (state url key value) {d} n v =
    insert-IsConsistent url _ d (record { named = refl; enforced = (known-IsEntry url v).enforced })
      v
apply-IsConsistent (cooldown url key failures ms next kind) {d} n v =
    insert-IsConsistent url _ d (record { named = refl; enforced = (known-IsEntry url v).enforced })
      v
apply-IsConsistent (attention url key a) {d} n v = elim (Option-cases (lookup url d.servers)) [
  | inl e ↦
      rw (e, set_server_attention_health)
        (insert-IsConsistent url _ d (record { named = refl; enforced = refl }) v)
  | inr (h, e) ↦
      rw (e, set_server_attention_health)
        (insert-IsConsistent url _ d (record { named = (v.entry url h e).named; enforced = refl })
          v)
]
apply-IsConsistent (session url key expires) {d} n v = elim (Option-cases (lookup url d.servers)) [
  | inl e ↦
      rw (e, set_server_session_expires_at)
        (insert-IsConsistent url _ d (record { named = refl; enforced = sym not_configured-state })
          v)
  | inr (h, e) ↦
      rw (e, set_server_session_expires_at)
        (insert-IsConsistent url _ d
          (record { named = (v.entry url h e).named; enforced = (v.entry url h e).enforced }) v)
]
apply-IsConsistent (veto url key value) n v = absurd (ground (arith, n))

apply_all-IsConsistent :
    (us : List Update) {d : DaemonStatus}
    → any sets_veto us ≡ false
    → IsConsistent d
    → IsConsistent (apply_all us d)
unfolding apply_all
apply_all-IsConsistent [] n v = v
apply_all-IsConsistent (u ∷ us) n v =
    apply_all-IsConsistent us (ground (arith, n)) (apply-IsConsistent u (ground (arith, n)) v)

-- After any updates of the status that the daemon starts with, of which none sets a veto state by
-- itself, every entry stands under the base URL of its own server, and its veto state is the one
-- that its receptors have.
pub status-IsConsistent :
    (wake : String) (ss : List ServerName) (us : List Update)
    → any sets_veto us ≡ false
    → IsConsistent (apply_all us (new wake ss))
status-IsConsistent wake ss us n = apply_all-IsConsistent us n (new-IsConsistent wake ss)

-- An update of one server leaves the entries of the others as they are.
pub lookup-apply_ne :
    (u : Update) (d : DaemonStatus) (other : String)
    → get_or (option_map (λ url. url == other) (target u)) false ≡ false
    → lookup other (apply u d).servers ≡ lookup other d.servers
unfolding apply target set_server_veto_enforcement_state set_gateway_state set_server_state
    set_server_reconnect_cooldown set_server_attention_health set_server_session_expires_at
lookup-apply_ne (gateway value) d other h = refl
lookup-apply_ne (state url key value) d other h = rw lookup-insert (rw h)
lookup-apply_ne (cooldown url key failures ms next kind) d other h = rw lookup-insert (rw h)
lookup-apply_ne (attention url key a) d other h = elim (Option-cases (lookup url d.servers)) [
  | inl e ↦ rw (e, set_server_attention_health) (rw lookup-insert (rw h))
  | inr (g, e) ↦ rw (e, set_server_attention_health) (rw lookup-insert (rw h))
]
lookup-apply_ne (session url key expires) d other h = elim (Option-cases (lookup url d.servers)) [
  | inl e ↦ rw (e, set_server_session_expires_at) (rw lookup-insert (rw h))
  | inr (g, e) ↦ rw (e, set_server_session_expires_at) (rw lookup-insert (rw h))
]
lookup-apply_ne (veto url key value) d other h = elim (Option-cases (lookup url d.servers)) [
  | inl e ↦ rw (e, set_server_veto_enforcement_state) (rw lookup-insert (rw h))
  | inr (g, e) ↦ rw (e, set_server_veto_enforcement_state) (rw lookup-insert (rw h))
]

any-filter :
    {F : Type 0} (rs : List (ComputedReceptor F))
    → ltb 0 (length (filter is_veto rs)) ≡ any is_veto rs
any-filter [] = refl
any-filter (r ∷ rs) = ground (arith, any-filter rs)

mode_test :
    (unavailable degraded empty veto_only : Bool)
    → ((if unavailable
          then "veto_enforcement_unavailable"
          else if degraded
          then "evaluation_unavailable"
          else if empty
          then "no_active_receptors"
          else if veto_only
          then "veto_only_no_positive_receptors"
          else "receptor_gated")
        == "veto_enforcement_unavailable")
      ≡ unavailable
mode_test true _ _ _ = refl
mode_test false true _ _ = refl
mode_test false false true _ = refl
mode_test false false false true = refl
mode_test false false false false = refl

delivery_mode-unavailable :
    {F : Type 0} (l : AttentionLayer F)
    → (Layer.delivery_mode l == "veto_enforcement_unavailable") ≡ l.veto_enforcement_unavailable
unfolding Layer.delivery_mode
delivery_mode-unavailable l =
    mode_test l.veto_enforcement_unavailable l.degraded (is_empty l.receptors)
      (eqb (Layer.interest_receptor_count l) 0)

-- The health report and the attention layer name the same veto state.
pub veto_enforcement_state-from_layer :
    {F : Type 0} (l : AttentionLayer F)
    → veto_enforcement_state (from_layer l) ≡ Layer.veto_enforcement_state l
unfolding veto_enforcement_state from_layer Layer.veto_enforcement_state Layer.delivery_mode
    Layer.veto_receptor_count
veto_enforcement_state-from_layer l =
    ground (arith, any-filter l.receptors, delivery_mode-unavailable l)
