-- ===== src/Storage/Store.antt =====
-- src/storage.rs: the operations of `DeliveryStore`.
use subspace_daemon.Base.{
  Bool, List, Result, String, [], any, bail_if, false, get_or, if◌then◌else◌, none, not, some, true,
  ℕ, ◌&&◌, ◌==◌, ◌>>◌, ◌||◌, ◌∷◌,
}
use subspace_daemon.Attention.Evaluate.{
  AttentionResult, AttentionDisposition, deliver, filtered, no_active_receptor, vetoed,
  evaluation_unavailable, veto_enforcement_unavailable,
}
use subspace_daemon.Attention.Receptor.{as_str}
use subspace_daemon.Storage.Schema.{
  StorageError, not_delivered, incomplete_veto, implicit_fallback, no_accepted_match,
}
use subspace_daemon.Storage.Tables.{
  WakeEnvelope, RoutingSnapshot, SinkSnapshot, SinkConfig, db, agent_session_wake, EventRecord,
  DeliveryTicket,
}
use subspace_daemon.Storage.Action.{Action, pure, lift, modify, query_row, with_schema, ◌⟫=◌, ◌⟫◌}
use subspace_daemon.Storage.Events.{upsert_ingress_source, upsert_canonical_event, write_decision}
use subspace_daemon.Storage.Sinks.{
  upsert_sink_target, clear_sink_target_disabled, soft_disable_sink_target,
  soft_disable_missing_sink_targets, upsert_sink_delivery, is_delivered_id, write_attempted,
  write_failed, write_delivered,
}

-- The store's configuration. `sink_config_json` prints what it is given; its text is a parameter.
pub record DeliveryStore : Type 0 where
  pub database_path : String
  pub auto_migrate : Bool
  pub db_config_json : SinkConfig → String
  pub sink_config_json : SinkConfig → String → String

abbrev pub is_deliver : AttentionDisposition → Bool
is_deliver deliver = true
is_deliver filtered = false
is_deliver no_active_receptor = false
is_deliver vetoed = false
is_deliver evaluation_unavailable = false
is_deliver veto_enforcement_unavailable = false

unfoldable pub sink_destination : DeliveryStore → SinkConfig → String → String
sink_destination store s wake_session_key = elim s.destination [
  | some destination ↦ destination
  | none ↦ elim s.kind [ db ↦ store.database_path | agent_session_wake ↦ wake_session_key ]
]

-- the snapshot of `record_db_sink_delivery`
unfoldable pub db_snapshot : DeliveryStore → SinkConfig → SinkSnapshot
db_snapshot store s = record {
  sink_key = s.key;
  sink_kind = db;
  destination = get_or s.destination store.database_path;
  config_json = store.db_config_json s;
}

module _ {F : Type 0} where
  unfoldable pub ensure_receptor_accepted_for_sink_delivery :
      AttentionResult F → Result StorageError (Unit {0})
  ensure_receptor_accepted_for_sink_delivery a =
      bail_if (not a.deliver || not (is_deliver a.disposition)) not_delivered
      >> bail_if a.veto_not_evaluated incomplete_veto
      >> bail_if a.fallback implicit_fallback
      >> bail_if
          (not (any (λ m. m.above_threshold && not (as_str m.receptor_class == "veto")) a.matches))
          no_accepted_match

  module _ (store : DeliveryStore) (now : ℕ) where
    unfoldable pub record_attention_decision :
        WakeEnvelope F → AttentionResult F → Action F (Unit {0})
    unfolding with_schema upsert_ingress_source write_decision
    record_attention_decision e a = with_schema store.auto_migrate (
        upsert_ingress_source now e.server e.server_key ⟫= λ source.
        modify (write_decision now e a source))

    unfoldable pub record_db_sink_delivery :
        WakeEnvelope F → AttentionResult F → SinkConfig → RoutingSnapshot → Action F EventRecord
    unfolding ensure_receptor_accepted_for_sink_delivery with_schema upsert_canonical_event
        upsert_sink_target upsert_sink_delivery write_delivered db_snapshot
    record_db_sink_delivery e a s routing =
        lift (ensure_receptor_accepted_for_sink_delivery a)
        ⟫ with_schema store.auto_migrate (
            upsert_canonical_event now e a routing ⟫= λ event.
            upsert_sink_target now (db_snapshot store s) ⟫= λ target.
            upsert_sink_delivery now event.daemon_event_id target (db_snapshot store s) ⟫= λ id.
            modify (write_delivered now id) ⟫ pure event)

    unfoldable pub queue_wake_sink_delivery :
        WakeEnvelope F
        → AttentionResult F
        → SinkSnapshot
        → RoutingSnapshot
        → Action F DeliveryTicket
    unfolding ensure_receptor_accepted_for_sink_delivery with_schema upsert_canonical_event
        upsert_sink_target upsert_sink_delivery is_delivered_id
    queue_wake_sink_delivery e a s routing =
        lift (ensure_receptor_accepted_for_sink_delivery a)
        ⟫ with_schema store.auto_migrate (
            upsert_canonical_event now e a routing ⟫= λ event. upsert_sink_target now s ⟫= λ target.
            upsert_sink_delivery now event.daemon_event_id target s ⟫= λ id.
            query_row (is_delivered_id id) ⟫= λ sent. pure (record {
              daemon_event_id = event.daemon_event_id;
              delivery_id = id;
              already_delivered = sent;
            }))

    unfoldable pub mark_delivery_attempted : ℕ → Action F (Unit {0})
    unfolding with_schema write_attempted
    mark_delivery_attempted id = with_schema store.auto_migrate (modify (write_attempted now id))

    unfoldable pub mark_delivery_failed : ℕ → String → Action F (Unit {0})
    unfolding with_schema write_failed
    mark_delivery_failed id message =
        with_schema store.auto_migrate (modify (write_failed now id message))

    unfoldable pub mark_delivery_delivered : ℕ → Action F (Unit {0})
    unfolding with_schema write_delivered
    mark_delivery_delivered id = with_schema store.auto_migrate (modify (write_delivered now id))

    -- one turn of the loop of `reconcile_sink_targets`
    unfoldable pub reconcile_sink : String → SinkConfig → Action F (Unit {0})
    unfolding sink_destination upsert_sink_target clear_sink_target_disabled
        soft_disable_sink_target
    reconcile_sink wake_session_key s =
        let destination = sink_destination store s wake_session_key in
        upsert_sink_target now (record {
          sink_key = s.key;
          sink_kind = s.kind;
          destination = destination;
          config_json = store.sink_config_json s destination;
        })
        ⟫= λ id. modify (
            if s.enabled
            then clear_sink_target_disabled now id
            else soft_disable_sink_target now id "sink disabled in config")

    unfoldable pub reconcile_sinks : String → List SinkConfig → Action F (Unit {0})
    unfolding reconcile_sink
    reconcile_sinks wake_session_key [] = pure tt
    reconcile_sinks wake_session_key (s ∷ ss) =
        reconcile_sink wake_session_key s ⟫ reconcile_sinks wake_session_key ss

    unfoldable pub reconcile_sink_targets : List SinkConfig → String → Action F (Unit {0})
    unfolding with_schema reconcile_sinks soft_disable_missing_sink_targets
    reconcile_sink_targets sinks wake_session_key = with_schema store.auto_migrate (
        reconcile_sinks wake_session_key sinks
        ⟫ modify (soft_disable_missing_sink_targets now sinks))
