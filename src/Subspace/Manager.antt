-- ===== src/Subspace/Manager.antt =====
-- src/subspace/client.rs, `run_server_manager`: the connections to a server, one after the other.
pub mod Paused
use subspace_daemon.Base.{
  Bool, List, Option, Result, String, [], append_text, err, false, get_or, if◌then◌else◌, insert,
  ltb, min, none, ok, some, true, ℕ, ◌*◌, ◌++◌, ◌-◌, ◌==◌, ◌∷◌,
}
use subspace_daemon.Base.Json.{Json}
use subspace_daemon.Attention.Float.{Float}
use subspace_daemon.Attention.Plugin.{EmbeddingBackendConfig}
use subspace_daemon.Attention.Layer.{AttentionLayer, Environment}
use subspace_daemon.Config.Stored.{ServerConfig}
use subspace_daemon.HardFailure.{HardFailureEvent}
use subspace_daemon.Ipc.{OutboundSendResult}
use subspace_daemon.Runtime.Retry.{Jitter, jitter}
use subspace_daemon.Runtime.Store.{
  RuntimeStore, RetryConfig, ReconnectCooldown, u64_max, reconnect_cooldown,
  record_reconnect_failure,
}
use subspace_daemon.Status.{
  DaemonStatus, set_server_state, set_server_session_expires_at, set_server_reconnect_cooldown,
}
use subspace_daemon.Subspace.Auth.{SessionAuth}
use subspace_daemon.Subspace.Frames.{reconnect_error_kind}
use subspace_daemon.Subspace.Identity.{
  Keys, Paths, Disk, IdentityError, LoadedSessionRecord, load, load_session_record,
  ensure_matches_agent_id, identity_path,
}
use subspace_daemon.Subspace.Join.{World, connect_once}
use subspace_daemon.Subspace.Live.{
  Live, Failure, Ended, goes_on, stops, bails, session_refreshed_reconnecting,
}
use subspace_daemon.Subspace.Payloads.{Link, server_hard_failure_event}
use subspace_daemon.Subspace.Session.{
  ActiveSession, current, legacy, session_token, session_expires_at, update_session_token, content,
}
use subspace_daemon.Wake.Process.{Item}

-- `delays` are the sleeps, the last one first.
pub record Manager (F N : Type 0) : Type 0 where
  pub disk : Disk
  pub runtime : RuntimeStore
  pub status : DaemonStatus
  pub queue : List (Item F)
  pub frames : List (Json N)
  pub replies : List (ℕ × Result String OutboundSendResult)
  pub failures : List HardFailureEvent
  pub backoff : ℕ
  pub delays : List ℕ

-- What the world gives to a round: the time, whether the shutdown comes in the cooldown, the
-- answer of the server to the authentication, why the session or the runtime store is not written,
-- the connection, the time of its failure, and whether the shutdown comes in the sleep.
pub record Round (F : Type 0) : Type 0 where
  pub now : ℕ
  pub interrupted : Bool
  pub reauth : Result String SessionAuth
  pub writing : Failure
  pub world : World F
  pub failed_at : ℕ
  pub flushing : Failure
  pub woken : Bool

-- How a round ends: with the next one, in a connection that goes on, or with the task.
pub data Next : Type 0 where
  again stays : Next
  over : Result String (Unit {0}) → Next

module _ (fl : Float) (env : Environment fl.F) {N K P R : Type 0} (link : Link fl.F N)
    (server : ServerConfig P) (clients : List (String × EmbeddingBackendConfig))
    (attention : AttentionLayer fl.F) (keys : Keys K) (paths : Paths)
    (error_text : IdentityError → String) (session_path identities_dir : String) (j : Jitter R)
    (retry : RetryConfig R) where
  open fl use {F}

  unfoldable pub server_state : String → Manager F N → Manager F N
  unfolding set_server_state
  server_state value m = record m {
    status = set_server_state server.base_url server.server_key value m.status;
  }

  unfoldable pub update_server_reconnect_cooldown : ReconnectCooldown → Manager F N → Manager F N
  unfolding set_server_reconnect_cooldown
  update_server_reconnect_cooldown c m = record m {
    status =
        set_server_reconnect_cooldown server.base_url server.server_key c.consecutive_failures
          c.cooldown_ms c.next_attempt_at c.last_error_kind m.status;
  }

  -- `wait_for_reconnect_cooldown_if_needed`: the sleep and whether the shutdown came
  unfoldable pub wait_for_reconnect_cooldown_if_needed : ℕ → Bool → Manager F N → Manager F N × Bool
  unfolding reconnect_cooldown update_server_reconnect_cooldown
  wait_for_reconnect_cooldown_if_needed now interrupted m = elim (reconnect_cooldown m.runtime) [
    | none ↦ (m, false)
    | some c ↦
        let t = update_server_reconnect_cooldown c m in
        let next_attempt_at = get_or (link.clock.parse c.next_attempt_at) now in
        if ltb now next_attempt_at
        then (record t { delays = (next_attempt_at - now) ∷ t.delays }, interrupted)
        else (t, false)
  ]

  -- the session of the round
  unfoldable pub load_active : Disk → Result String (Option (ActiveSession K))
  unfolding load_session_record load ensure_matches_agent_id
  load_active disk = elim (load_session_record keys paths session_path disk) [
    | err e ↦ err (error_text e)
    | ok none ↦ ok none
    | ok (some (LoadedSessionRecord.legacy session)) ↦ ok (some (legacy session))
    | ok (some (LoadedSessionRecord.current session)) ↦
        let path = identity_path keys paths identities_dir session.identity in
        elim (load keys paths path disk) [
          | err e ↦ err (error_text e)
          | ok none ↦ err (append_text "missing identity file: " path)
          | ok (some identity) ↦ elim (ensure_matches_agent_id identity session.agent_id) [
            | err e ↦ err (error_text e)
            | ok u ↦ ok (some (current session identity))
          ]
        ]
  ]

  unfoldable pub sleep : Bool → Manager F N → Manager F N × Next
  unfolding jitter
  sleep woken m =
      let slept = record m { delays = jitter j m.backoff retry.jitter_ratio ∷ m.delays } in
      if woken
      then (slept, over (ok tt))
      else (record slept { backoff = min (min (m.backoff * 2) u64_max) retry.max_ms }, again)

  unfoldable pub fire : String → String → Manager F N → Manager F N
  unfolding server_hard_failure_event
  fire kind message m = record m {
    failures = m.failures ++ (server_hard_failure_event server kind message ∷ []);
  }

  -- `record_reconnect_failure`, and whether it has entered the cooldown
  unfoldable pub record_failure :
      ℕ → Failure → String → Manager F N → Manager F N × Result String Bool
  unfolding record_reconnect_failure update_server_reconnect_cooldown
  record_failure now flushing kind m =
      let recorded = record_reconnect_failure link.clock j now retry kind m.runtime in
      let t = record m { runtime = recorded.0 } in
      elim flushing [
        | some e ↦ (t, err e)
        | none ↦ elim recorded.1 [
          | none ↦ (t, ok false)
          | some c ↦ (update_server_reconnect_cooldown c t, ok true)
        ]
      ]

  -- what follows a failure: the hard failure where the cooldown is entered, else the sleep
  unfoldable pub after_failure : String → String → Round F → Manager F N → Manager F N × Next
  unfolding record_failure reconnect_error_kind fire sleep
  after_failure kind e r m =
      let recorded = record_failure r.failed_at r.flushing (reconnect_error_kind e) m in
      elim recorded.1 [
        | err why ↦ (recorded.0, over (err why))
        | ok true ↦ (fire kind e recorded.0, again)
        | ok false ↦ sleep r.woken recorded.0
      ]

  abbrev pub open_live : ActiveSession K → Manager F N → Live F N K
  open_live session m = record {
    session = session;
    saved = none;
    pending = [];
    runtime = m.runtime;
    status = m.status;
    queue = m.queue;
    frames = m.frames;
    replies = m.replies;
    failures = m.failures;
  }

  -- the file of the session, where it was written
  unfoldable pub save : Option (ActiveSession K) → Disk → Disk
  unfolding content
  save none disk = disk
  save (some session) disk = insert session_path (content keys paths session) disk

  abbrev pub close_live : Live F N K → Manager F N → Manager F N
  close_live s m = record m {
    disk = save s.saved m.disk;
    runtime = s.runtime;
    status = s.status;
    queue = s.queue;
    frames = s.frames;
    replies = s.replies;
    failures = s.failures;
  }

  -- what follows a connection, which was live or not
  unfoldable pub after_connection : Ended → Bool → Round F → Manager F N → Manager F N × Next
  unfolding server_state after_failure
  after_connection goes_on reached r m = (m, stays)
  after_connection stops reached r m = (m, over (ok tt))
  after_connection (bails e) reached r m =
      let t = if reached then record m { backoff = retry.base_ms } else m in
      if e == session_refreshed_reconnecting
      then (record (server_state "reconnecting" m) { backoff = retry.base_ms }, again)
      else after_failure "subspace_reconnect_cooldown" e r (server_state "reconnecting" t)

  unfoldable pub connect : Round F → ActiveSession K → Manager F N → Manager F N × Next
  unfolding connect_once after_connection save
  connect r session m =
      let result =
        connect_once fl env link server clients attention r.world (open_live session m) in
      after_connection result.0.1 result.1 r (close_live result.0.0 m)

  -- the part of the round for a session without a token
  unfoldable pub authenticate : Round F → ActiveSession K → Manager F N → Manager F N × Next
  unfolding server_state update_session_token set_server_session_expires_at session_expires_at save
      after_failure connect
  authenticate r session m =
      let t = server_state "authenticating" m in
      elim r.reauth [
        | err e ↦ after_failure "subspace_auth_failed" e r (server_state "subspace_auth_required" t)
        | ok auth ↦
            let fresh = update_session_token auth session in
            elim r.writing [
              | some e ↦ (t, over (err e))
              | none ↦ connect r fresh (record t {
                disk = save (some fresh) t.disk;
                status =
                    set_server_session_expires_at server.base_url server.server_key
                      (session_expires_at fresh) t.status;
              })
            ]
      ]

  -- the round after the cooldown
  unfoldable pub attempt : Round F → Manager F N → Manager F N × Next
  unfolding load_active server_state sleep session_token authenticate connect
  attempt r m = elim (load_active m.disk) [
    | err e ↦ (m, over (err e))
    | ok none ↦ sleep r.woken (server_state "subspace_auth_required" m)
    | ok (some session) ↦ elim (session_token session) [
      | none ↦ authenticate r session m
      | some token ↦ connect r session m
    ]
  ]

  unfoldable pub round : Round F → Manager F N → Manager F N × Next
  unfolding wait_for_reconnect_cooldown_if_needed attempt
  round r m =
      let waited = wait_for_reconnect_cooldown_if_needed r.now r.interrupted m in
      let tried = attempt r waited.0 in if waited.1 then (waited.0, over (ok tt)) else tried

  abbrev pub then_go_on :
      (Manager F N → Manager F N × Next) → Manager F N × Next → Manager F N × Next
  then_go_on rest (m, again) = rest m
  then_go_on rest (m, stays) = (m, stays)
  then_go_on rest (m, over result) = (m, over result)

  -- The task, which waits where the given rounds are over.
  unfoldable pub run_server_manager : List (Round F) → Manager F N → Manager F N × Next
  unfolding round
  run_server_manager [] m = (m, again)
  run_server_manager (r ∷ rs) m = then_go_on (run_server_manager rs) (round r m)
