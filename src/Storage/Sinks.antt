-- ===== src/Storage/Sinks.antt =====
-- src/storage.rs: the statements on the sink targets and their deliveries.
pub mod Delivered
use subspace_daemon.Base.{
  Bool, List, Option, String, any, bail_if, eqb, false, find?, if◌then◌else◌, is_empty_text,
  is_none, none, not, option_map, or_else, some, trim, true, ℕ, ◌&&◌, ◌==◌,
}
use subspace_daemon.Storage.Schema.{empty_destination}
use subspace_daemon.Storage.Action.{Action, lift, modify, query_row, ◌⟫◌}
use subspace_daemon.Storage.Tables.{
  Database, SinkDelivery, SinkSnapshot, SinkConfig, queued, attempted, failed, delivered, upsert,
  update_where,
}

abbrev pub is_delivered : SinkDelivery → Bool
is_delivered r = elim r.status [ delivered ↦ true | _ ↦ false ]

abbrev pub is_delivery_of : ℕ → ℕ → SinkDelivery → Bool
is_delivery_of event target r = eqb r.daemon_event_id event && eqb r.sink_target_id target

-- the `DO UPDATE` of `upsert_sink_delivery`
abbrev pub requeue : ℕ → SinkSnapshot → SinkDelivery → SinkDelivery
requeue now s r = record r {
  snapshot = s;
  status = if is_delivered r then r.status else queued;
  error = if is_delivered r then r.error else none;
  queued_at = if is_delivered r then r.queued_at else now;
}

abbrev pub new_delivery : ℕ → ℕ → ℕ → SinkSnapshot → ℕ → SinkDelivery
new_delivery now event target s id = record {
  id = id;
  daemon_event_id = event;
  sink_target_id = target;
  snapshot = s;
  status = queued;
  queued_at = now;
  attempted_at = none;
  delivered_at = none;
  failed_at = none;
  skipped_at = none;
  error = none;
}

module _ {F : Type 0} where
  unfoldable pub sink_target_id : String → Database F → Option ℕ
  sink_target_id sink_key d =
      option_map (λ r. r.id) (find? (λ r. r.sink_key == sink_key) d.sink_target.rows)

  unfoldable pub sink_delivery_id : ℕ → ℕ → Database F → Option ℕ
  sink_delivery_id event target d =
      option_map (λ r. r.id) (find? (is_delivery_of event target) d.sink_delivery.rows)

  -- `SELECT status = 'delivered' FROM sink_delivery WHERE id = ?1`
  unfoldable pub is_delivered_id : ℕ → Database F → Option Bool
  is_delivered_id id d = option_map is_delivered (find? (λ r. eqb r.id id) d.sink_delivery.rows)

module _ {F : Type 0} (now : ℕ) where
  unfoldable pub write_sink_target : SinkSnapshot → Database F → Database F
  unfolding upsert
  write_sink_target s d = record d {
    sink_target =
        upsert (λ r. r.sink_key == s.sink_key)
          (λ r. record r {
            sink_kind = s.sink_kind;
            destination = s.destination;
            config_json = s.config_json;
            disabled_at = none;
            disabled_reason = none;
            updated_at = now;
          })
          (λ id. record {
            id = id;
            sink_key = s.sink_key;
            sink_kind = s.sink_kind;
            destination = s.destination;
            config_json = s.config_json;
            disabled_at = none;
            disabled_reason = none;
            created_at = now;
            updated_at = now;
          })
          d.sink_target;
  }

  unfoldable pub upsert_sink_target : SinkSnapshot → Action F ℕ
  unfolding write_sink_target sink_target_id
  upsert_sink_target s =
      lift (bail_if (is_empty_text (trim s.destination)) empty_destination)
      ⟫ modify (write_sink_target s)
      ⟫ query_row (sink_target_id s.sink_key)

  unfoldable pub clear_sink_target_disabled : ℕ → Database F → Database F
  unfolding update_where
  clear_sink_target_disabled id d = record d {
    sink_target =
        update_where (λ r. eqb r.id id)
          (λ r. record r { disabled_at = none; disabled_reason = none; updated_at = now })
          d.sink_target;
  }

  unfoldable pub soft_disable_sink_target : ℕ → String → Database F → Database F
  unfolding update_where
  soft_disable_sink_target id reason d = record d {
    sink_target =
        update_where (λ r. eqb r.id id)
          (λ r. record r {
            disabled_at = or_else r.disabled_at (some now);
            disabled_reason = some reason;
            updated_at = now;
          })
          d.sink_target;
  }

  -- Both statements of `soft_disable_missing_sink_targets`: the first is the one without keys.
  unfoldable pub soft_disable_missing_sink_targets : List SinkConfig → Database F → Database F
  unfolding update_where
  soft_disable_missing_sink_targets sinks d = record d {
    sink_target =
        update_where (λ r. not (any (λ s. s.key == r.sink_key) sinks) && is_none r.disabled_at)
          (λ r. record r {
            disabled_at = or_else r.disabled_at (some now);
            disabled_reason = or_else r.disabled_reason (some "sink removed from config");
            updated_at = now;
          })
          d.sink_target;
  }

  unfoldable pub write_sink_delivery : ℕ → ℕ → SinkSnapshot → Database F → Database F
  unfolding upsert
  write_sink_delivery event target s d = record d {
    sink_delivery =
        upsert (is_delivery_of event target) (requeue now s) (new_delivery now event target s)
          d.sink_delivery;
  }

  unfoldable pub upsert_sink_delivery : ℕ → ℕ → SinkSnapshot → Action F ℕ
  unfolding write_sink_delivery sink_delivery_id
  upsert_sink_delivery event target s =
      modify (write_sink_delivery event target s) ⟫ query_row (sink_delivery_id event target)

  unfoldable pub write_attempted : ℕ → Database F → Database F
  unfolding update_where
  write_attempted id d = record d {
    sink_delivery =
        update_where (λ r. eqb r.id id)
          (λ r. record r { status = attempted; attempted_at = some now; error = none })
          d.sink_delivery;
  }

  unfoldable pub write_failed : ℕ → String → Database F → Database F
  unfolding update_where
  write_failed id message d = record d {
    sink_delivery =
        update_where (λ r. eqb r.id id)
          (λ r. record r {
            status = failed;
            attempted_at = or_else r.attempted_at (some now);
            failed_at = some now;
            error = some message;
          })
          d.sink_delivery;
  }

  unfoldable pub write_delivered : ℕ → Database F → Database F
  unfolding update_where
  write_delivered id d = record d {
    sink_delivery =
        update_where (λ r. eqb r.id id)
          (λ r. record r {
            status = delivered;
            attempted_at = or_else r.attempted_at (some now);
            delivered_at = some now;
            failed_at = none;
            skipped_at = none;
            error = none;
          })
          d.sink_delivery;
  }
