-- ===== src/Wake/Process.antt =====
-- src/supervisor.rs: one turn of the loop of `process_wake_queue`.
pub mod Wakes
pub mod Live
use subspace_daemon.Base.{
  Bool, List, Option, String, [], eqb, err, false, if◌then◌else◌, is_empty, join, none, not, ok,
  some, true, ℕ, ◌++◌, ◌∷◌,
}
use subspace_daemon.Attention.Float.{Float}
use subspace_daemon.Attention.Layer.{AttentionLayer}
use subspace_daemon.Attention.Evaluate.{MessageEmbedding, AttentionResult, evaluate_with_embeddings}
use subspace_daemon.HardFailure.{HardFailureEvent}
use subspace_daemon.Runtime.Retry.{Jitter}
use subspace_daemon.Runtime.Store.{RetryConfig, RuntimeStore, mark_processed}
use subspace_daemon.Storage.Schema.{StorageError}
use subspace_daemon.Storage.Tables.{
  Database, WakeEnvelope, SinkConfig, SinkSnapshot, agent_session_wake, RoutingSnapshot,
  DeliveryTicket,
}
use subspace_daemon.Storage.Action.{Action, pure, follow, ◌⟫=◌}
use subspace_daemon.Storage.Store.{
  DeliveryStore, record_attention_decision, record_db_sink_delivery, queue_wake_sink_delivery,
  reconcile_sink_targets,
}
use subspace_daemon.Wake.Routing.{
  routing_entries_for_sinks, enabled_sink_count, db_sink, wake_sinks, selected_sinks,
  effective_session_key, render_inbound_wake,
}
use subspace_daemon.Wake.Send.{
  Chat, Attempt, Outcome, continues, stopped, retrying, fails, Wake, Progress, stop, send_loop,
  unsaved,
}

-- the envelope with its server's attention layer and the override of its session key
pub record Item (F : Type 0) : Type 0 where
  pub envelope : WakeEnvelope F
  pub attention : AttentionLayer F
  pub wake_session_key_override : Option String

-- The arguments of `process_wake_queue` that do not change, the texts of errors and scores, and the
-- JSON text of the snapshot of a wake sink.
pub record Router (F R : Type 0) : Type 0 where
  pub wake_session_key : String
  pub retry : RetryConfig R
  pub sinks : List SinkConfig
  pub delivery_store : Option DeliveryStore
  pub describe : StorageError → String
  pub show_score : F → String
  pub session_config_json : String → String

-- What one turn leaves.
pub record Turn (F : Type 0) : Type 0 where
  pub progress : Progress F
  pub runtime : RuntimeStore

unfoldable pub reconcile_failure_event : String → HardFailureEvent
reconcile_failure_event message = record {
  kind = "db_sink_target_reconcile_failed";
  component = "storage";
  target = none;
  message = message;
  metadata = [];
}

module _ {F : Type 0} where
  abbrev metadata : WakeEnvelope F → List (String × String)
  metadata e =
      ("server", e.server) ∷ ("server_key", e.server_key) ∷ ("message_id", e.message_id) ∷ []

  unfoldable pub storage_hard_failure_event : String → WakeEnvelope F → String → HardFailureEvent
  storage_hard_failure_event kind e message = record {
    kind = kind;
    component = "storage";
    target = some e.server;
    message = message;
    metadata = metadata e;
  }

  -- `wake_delivery_failed`
  unfoldable pub wake_failure_event : WakeEnvelope F → SinkConfig → String → HardFailureEvent
  wake_failure_event e s message = record {
    kind = "wake_delivery_failed";
    component = "wake_router";
    target = some (join ":" (e.server ∷ s.key ∷ []));
    message = message;
    metadata = metadata e ++ (("sink_key", s.key) ∷ []);
  }

  unfoldable pub no_sinks_event : WakeEnvelope F → HardFailureEvent
  no_sinks_event e = record {
    kind = "sink_delivery_blocked_no_sinks";
    component = "wake_router";
    target = some e.server;
    message = "message matched receptor policy but no sinks are configured";
    metadata = metadata e;
  }

-- The next statement runs only where the one before has come to its end.
abbrev pub go_on : {F : Type 0} → Outcome → Progress F → Progress F → Progress F
go_on continues p rest = rest
go_on stopped p rest = p
go_on retrying p rest = p
go_on (fails e) p rest = p
go_on (unsaved e) p rest = p

abbrev pub is_continues : Outcome → Bool
is_continues continues = true
is_continues stopped = false
is_continues retrying = false
is_continues (fails e) = false
is_continues (unsaved e) = false

-- `runtime.flush()?`, with the error of the write if there is one
abbrev pub flush : Option String → Outcome
flush none = continues
flush (some e) = unsaved e

module _ (fl : Float) {R : Type 0} (j : Jitter R) (r : Router fl.F R) where
  open fl use {F}

  -- `if let Some(store) = delivery_store.as_ref()`, with an operation whose value is not used
  abbrev pub with_store : {A : Type 0} → (DeliveryStore → Action F A) → Action F (Unit {0})
  with_store f = elim r.delivery_store [ none ↦ pure tt | some store ↦ f store ⟫= λ _. pure tt ]

  unfoldable pub wake_chat : Item F → AttentionResult F → SinkConfig → Chat
  unfolding render_inbound_wake effective_session_key
  wake_chat item a s = record {
    session_key = effective_session_key s item.wake_session_key_override r.wake_session_key;
    message = render_inbound_wake r.show_score item.envelope a;
    idempotency_key = join ":" (item.envelope.server_key ∷ item.envelope.message_id ∷ s.key ∷ []);
  }

  -- the delivery ticket of a wake sink, if there is a store
  unfoldable pub queue_wake :
      ℕ
      → Item F
      → AttentionResult F
      → RoutingSnapshot
      → SinkConfig
      → Action F (Option (DeliveryStore × DeliveryTicket))
  unfolding queue_wake_sink_delivery effective_session_key
  queue_wake now item a routing s = elim r.delivery_store [
    | none ↦ pure none
    | some store ↦
        let key = effective_session_key s item.wake_session_key_override r.wake_session_key in
        let snapshot : SinkSnapshot = record {
          sink_key = s.key;
          sink_kind = agent_session_wake;
          destination = key;
          config_json = r.session_config_json key;
        } in
        queue_wake_sink_delivery store now item.envelope a snapshot routing ⟫= λ ticket.
        pure (some (store, ticket))
  ]

  abbrev pub is_already_delivered : Option (DeliveryStore × DeliveryTicket) → Bool
  is_already_delivered none = false
  is_already_delivered (some (store, ticket)) = ticket.already_delivered

  -- a failure that is reported before the daemon stops with the error
  abbrev pub report : (String → HardFailureEvent) → StorageError → Database F → Wake F → Wake F
  report event e d w = record w {
    database = d;
    failures = w.failures ++ (event (r.describe e) ∷ []);
  }

  -- the loop over the wake sinks
  unfoldable pub deliver_wakes :
      ℕ
      → Item F
      → AttentionResult F
      → RoutingSnapshot
      → List SinkConfig
      → List Attempt
      → Wake F
      → Progress F
  unfolding queue_wake storage_hard_failure_event wake_failure_event wake_chat
  deliver_wakes now item a routing [] attempts w = stop w continues attempts
  deliver_wakes now item a routing (s ∷ ss) attempts w =
      let queued = queue_wake now item a routing s w.database in
      let event = storage_hard_failure_event "db_wake_sink_queue_failed" item.envelope in
      elim queued.1 [
        | err e ↦ stop (report event e queued.0 w) (fails e) attempts
        | ok ticket ↦ elim (is_already_delivered ticket) [
          | true ↦ deliver_wakes now item a routing ss attempts (record w { database = queued.0 })
          | false ↦
              let p =
                send_loop j r.retry ticket (wake_chat item a s) (wake_failure_event item.envelope s)
                  r.retry.base_ms attempts (record w { database = queued.0 }) in
              go_on p.outcome p (deliver_wakes now item a routing ss p.rest p.wake)
        ]
      ]

  abbrev pub reconcile_targets : ℕ → Action F (Unit {0})
  reconcile_targets now = with_store (λ s. reconcile_sink_targets s now r.sinks r.wake_session_key)

  unfoldable pub routing_of : Item F → RoutingSnapshot
  unfolding routing_entries_for_sinks selected_sinks
  routing_of item =
      let override = item.wake_session_key_override in
      record {
        candidate_sinks =
            routing_entries_for_sinks r.sinks override r.wake_session_key r.delivery_store;
        selected_sinks = selected_sinks r.sinks override r.wake_session_key r.delivery_store;
      }

  -- the delivery to the database sink, if there is one
  unfoldable pub record_event : ℕ → Item F → AttentionResult F → Action F (Unit {0})
  unfolding record_db_sink_delivery db_sink routing_of
  record_event now item a = elim (db_sink r.sinks) [
    | none ↦ pure tt
    | some s ↦ with_store (λ t. record_db_sink_delivery t now item.envelope a s (routing_of item))
  ]

  -- the part after the sinks are counted
  unfoldable pub deliver_accepted :
      ℕ → Item F → AttentionResult F → List Attempt → Wake F → Progress F
  unfolding reconcile_sink_targets record_event wake_sinks reconcile_failure_event
      storage_hard_failure_event
  deliver_accepted now item a attempts w =
      let reconciled = reconcile_targets now w.database in
      let stored = record_event now item a reconciled.0 in
      let event = storage_hard_failure_event "db_sink_delivery_failed" item.envelope in
      elim reconciled.1 [
        | err e ↦ stop (report reconcile_failure_event e reconciled.0 w) (fails e) attempts
        | ok u ↦ elim stored.1 [
          | err e ↦ stop (report event e stored.0 w) (fails e) attempts
          | ok v ↦
              deliver_wakes now item a (routing_of item) (wake_sinks r.sinks) attempts
                (record w { database = stored.0 })
        ]
      ]

  -- the part after the decision is recorded
  unfoldable pub deliver_decided :
      ℕ → Item F → AttentionResult F → List Attempt → Wake F → Progress F
  unfolding enabled_sink_count deliver_accepted no_sinks_event
  deliver_decided now item a attempts w =
      if not a.deliver
      then stop w continues attempts
      else if eqb (enabled_sink_count r.sinks) 0
      then stop (record w { failures = w.failures ++ (no_sinks_event item.envelope ∷ []) })
          continues attempts
      else deliver_accepted now item a attempts w

  abbrev pub evaluate_item : Item F → AttentionResult F
  evaluate_item item = evaluate_with_embeddings fl item.attention (
      if is_empty item.envelope.sender_embeddings
      then none
      else some item.envelope.sender_embeddings)

  abbrev pub record_decision : ℕ → Item F → AttentionResult F → Action F (Unit {0})
  record_decision now item a = with_store (λ s. record_attention_decision s now item.envelope a)

  unfoldable pub deliver_item : ℕ → Item F → List Attempt → Wake F → Progress F
  unfolding record_attention_decision storage_hard_failure_event deliver_decided
  deliver_item now item attempts w =
      let a = evaluate_item item in
      let decided = record_decision now item a w.database in
      let event = storage_hard_failure_event "db_attention_decision_failed" item.envelope in
      elim decided.1 [
        | err e ↦ stop (report event e decided.0 w) (fails e) attempts
        | ok u ↦ deliver_decided now item a attempts (record w { database = decided.0 })
      ]

  -- One turn: the message is marked as processed where the loop goes on to the next, and then the
  -- runtime store is written. `flushing` is why it is not, if it is not.
  unfoldable pub process_item :
      ℕ → Item F → List Attempt → Option String → Wake F → RuntimeStore → Turn F
  unfolding deliver_item mark_processed
  process_item now item attempts flushing w runtime =
      let p = deliver_item now item attempts w in
      if is_continues p.outcome
      then record {
        progress = record p { outcome = flush flushing };
        runtime = mark_processed item.envelope.message_id item.envelope.timestamp runtime;
      }
      else record { progress = p; runtime = runtime }
