-- ===== src/Gateway/Task.antt =====
-- src/gateway/client.rs, `run_gateway_task`: the connections of the gateway, one after the other.
pub mod Backoff
use subspace_daemon.Base.{
  Bool, List, Option, Result, String, [], err, false, if◌then◌else◌, min, none, ok, some, true, ℕ,
  ◌*◌, ◌++◌, ◌∷◌,
}
use subspace_daemon.Config.Stored.{GatewayConfig}
use subspace_daemon.HardFailure.{HardFailureEvent}
use subspace_daemon.Runtime.Retry.{Jitter, jitter}
use subspace_daemon.Runtime.Store.{RetryConfig, u64_max}
use subspace_daemon.Status.{DaemonStatus, set_gateway_state}
use subspace_daemon.Gateway.Connect.{
  DisconnectReason, restart, pairing_required, auth_failed, transport, Device, Host, Opening,
}
use subspace_daemon.Gateway.Live.{Connection, World, connect_once}

-- `delays` are the sleeps, the last one first, and `replies` the answers to requests.
pub record Task (N : Type 0) : Type 0 where
  pub opening : Opening N
  pub backoff : ℕ
  pub reconnecting : Bool
  pub failures : List HardFailureEvent
  pub delays : List ℕ
  pub replies : List (ℕ × Result String (Unit {0}))

-- A round: whether the shutdown is there before it, the connection, and whether the shutdown comes
-- in the sleep.
pub record Round : Type 0 where
  pub stopped : Bool
  pub world : World
  pub woken : Bool

unfoldable pub gateway_hard_failure_event : GatewayConfig → String → String → HardFailureEvent
gateway_hard_failure_event config kind message = record {
  kind = kind;
  component = "gateway";
  target = some config.ws_url;
  message = message;
  metadata = ("gateway_ws_url", config.ws_url) ∷ [];
}

module _ {N : Type 0} where
  unfoldable pub update_gateway_state : String → Task N → Task N
  unfolding set_gateway_state
  update_gateway_state value s = record s {
    opening = record s.opening { status = set_gateway_state value s.opening.status };
  }

  unfoldable pub fire : GatewayConfig → String → String → Task N → Task N
  unfolding gateway_hard_failure_event
  fire config kind message s = record s {
    failures = s.failures ++ (gateway_hard_failure_event config kind message ∷ []);
  }

module _ {N R : Type 0} (host : Host N) (config : GatewayConfig) (device : Device) (j : Jitter R)
    (retry : RetryConfig R) where
  -- what the task does after a connection, and whether it sleeps before the next one
  unfoldable pub after : Result String DisconnectReason → Task N → Task N × Bool
  unfolding update_gateway_state fire
  after (ok restart) s = (record s { backoff = retry.base_ms; reconnecting = false }, true)
  after (ok auth_failed) s = (record s { backoff = retry.base_ms; reconnecting = false }, false)
  after (ok pairing_required) s = (
    fire config "gateway_pairing_required" "gateway pairing required"
        (record s { backoff = retry.base_ms; reconnecting = false }),
    true,
  )
  after (ok transport) s = (
    fire config "gateway_transport_disconnected" "gateway transport disconnected" (
        update_gateway_state "reconnecting"
          (record s { backoff = retry.base_ms; reconnecting = true })),
    true,
  )
  after (err e) s =
      if s.reconnecting
      then (fire config "gateway_reconnect_failed" e (update_gateway_state "reconnecting" s), true)
      else (fire config "gateway_connect_failed" e s, true)

  -- the sleep, and whether the task goes on
  unfoldable pub sleep : Bool → Task N → Task N × Bool
  unfolding jitter
  sleep woken s =
      let slept = record s { delays = jitter j s.backoff retry.jitter_ratio ∷ s.delays } in
      if woken
      then (slept, false)
      else (record slept { backoff = min (min (s.backoff * 2) u64_max) retry.max_ms }, true)

  abbrev pub then_sleep : Bool → Task N × Bool → Task N × Bool
  then_sleep woken (s, true) = sleep woken s
  then_sleep woken (s, false) = (s, true)

  -- the connection of a round, which ends or goes on
  unfoldable pub attempt : World → Task N → Task N × Option (Result String DisconnectReason)
  unfolding connect_once update_gateway_state
  attempt world s =
      let state = if s.reconnecting then "reconnecting" else "connecting" in
      let started = update_gateway_state state s in
      let result = connect_once host config device world started.opening in
      (
        record started { opening = result.0.opening; replies = s.replies ++ result.0.replies },
        result.1,
      )

  -- one round, and whether the task goes on; it stays in a connection that does not end
  unfoldable pub round : Round → Task N → Task N × Bool
  unfolding attempt after sleep
  round r s =
      let tried = attempt r.world s in
      if r.stopped then (s, false) else elim tried.1 [
        | none ↦ (tried.0, false)
        | some end ↦ then_sleep r.woken (after end tried.0)
      ]

  abbrev pub then_go_on : (Task N → Task N) → Task N × Bool → Task N
  then_go_on rest (s, true) = rest s
  then_go_on rest (s, false) = s

  unfoldable pub run_gateway_task : List Round → Task N → Task N
  unfolding round
  run_gateway_task [] s = s
  run_gateway_task (r ∷ rs) s = then_go_on (run_gateway_task rs) (round r s)

-- the start of `run_gateway_task`
unfoldable pub start : {N R : Type 0} → RetryConfig R → Opening N → Task N
start retry opening = record {
  opening = opening;
  backoff = retry.base_ms;
  reconnecting = false;
  failures = [];
  delays = [];
  replies = [];
}
