-- ===== src/Examples/Deliveries.antt =====
-- The delivery store on concrete databases.
use subspace_daemon.Base.{
  [], eqb, err, false, get_or, is_ok, map, none, not, ok, option_map, refl, some, trim, true, ℕ,
  ◌&&◌, ◌||◌, ◌∷◌, ◌≡◌,
}
use subspace_daemon.Attention.Receptor.{broad, as_str}
use subspace_daemon.Attention.Evaluate.{AttentionResult, deliver}
use subspace_daemon.Storage.Schema.{
  Schema, required_tables, created_columns, legacy_schema_present, ensure_schema, null_value,
}
use subspace_daemon.Storage.Schema.Ready.{is_complete, ensure_schema-ok, ensure_schema_complete}
use subspace_daemon.Storage.Tables.{
  Table, Database, WakeEnvelope, RoutingSnapshot, SinkSnapshot, SinkConfig, agent_session_wake,
}
use subspace_daemon.Storage.Events.{upsert_canonical_event, upsert_receptor_matches}
use subspace_daemon.Storage.Sinks.{is_delivered, upsert_sink_delivery, write_delivered}
use subspace_daemon.Storage.Sinks.Delivered.{delivery, delivered_kept}
use subspace_daemon.Storage.Store.{
  DeliveryStore, queue_wake_sink_delivery, mark_delivery_delivered, reconcile_sink_targets,
}

abbrev no_rows : {R : Type 0} → Table R
no_rows = record { rows = []; next_id = 1 }

abbrev fresh : Schema
fresh = record { tables = "ingress_source" ∷ []; event_columns = [] }

abbrev pub start : Database ℕ
start = record {
  schema = record { tables = required_tables; event_columns = created_columns };
  ingress_source = no_rows;
  attention_decision = no_rows;
  daemon_event = no_rows;
  event_idempotency = no_rows;
  receptor_match = no_rows;
  sink_target = no_rows;
  sink_delivery = no_rows;
  is_null = λ x. eqb x 99;
}

abbrev pub envelope : WakeEnvelope ℕ
envelope = record {
  server = "https://a";
  server_key = "a";
  message_id = "m1";
  timestamp = "t1";
  inbound_event = "new_message";
  author_id = "u";
  author_name = "U";
  text = "hello";
  sender_embeddings = [];
}

abbrev result : AttentionResult ℕ
result = record {
  deliver = true;
  matches =
      record {
        receptor_id = "food";
        receptor_class = broad;
        score = 2;
        threshold = 1;
        above_threshold = true;
      }
      ∷ [];
  space_id = some "local";
  fallback = false;
  disposition = deliver;
  veto_not_evaluated = false;
}

abbrev routing : RoutingSnapshot
routing = record { candidate_sinks = []; selected_sinks = [] }

abbrev wake : SinkSnapshot
wake = record {
  sink_key = "wake";
  sink_kind = agent_session_wake;
  destination = "main";
  config_json = "";
}

abbrev store : DeliveryStore
store = record {
  database_path = "/db";
  auto_migrate = true;
  db_config_json = λ s. "";
  sink_config_json = λ s destination. "";
}

migrated_here : is_ok (ensure_schema fresh true).1 ≡ true
unfolding ensure_schema
migrated_here = refl

-- A wake that was queued, delivered and queued again is reported as delivered.
requeued_here :
    (let queued = queue_wake_sink_delivery store 5 envelope result wake routing start in
      let sent = mark_delivery_delivered store 6 1 queued.0 in
      (queue_wake_sink_delivery store 7 envelope result wake routing sent.0).1)
    ≡ ok (record { daemon_event_id = 1; delivery_id = 1; already_delivered = true })
unfolding queue_wake_sink_delivery mark_delivery_delivered as_str ensure_schema trim
    upsert_receptor_matches
requeued_here = refl

abbrev disabled_sink : SinkConfig
disabled_sink = record {
  key = "wake";
  kind = agent_session_wake;
  enabled = false;
  destination = none;
}

-- A sink that the configuration disables is disabled anew at each start: its time moves.
disabled_again_here :
    (let first = reconcile_sink_targets store 5 (disabled_sink ∷ []) "main" start in
      map
        (λ r. r.disabled_at)
        (reconcile_sink_targets store 9 (disabled_sink ∷ []) "main" first.0).0.sink_target.rows)
    ≡ some 9 ∷ []
unfolding reconcile_sink_targets ensure_schema trim
disabled_again_here = refl

ensure_schema-ok_example :
    is_ok (ensure_schema fresh false).1
    ≡ (not (legacy_schema_present fresh) && (false || is_complete fresh))
ensure_schema-ok_example = ensure_schema-ok fresh false

ensure_schema_complete_example :
    (is_complete (ensure_schema fresh true).0 ≡ true)
    × (is_ok (ensure_schema (ensure_schema fresh true).0 false).1 ≡ true)
ensure_schema_complete_example = ensure_schema_complete fresh true false migrated_here

-- A match whose score is stored as NULL: the event and its key stay, and the next recording finds
-- them.
abbrev unscored : AttentionResult ℕ
unscored = record result {
  matches =
      record {
        receptor_id = "food";
        receptor_class = broad;
        score = 99;
        threshold = 1;
        above_threshold = false;
      }
      ∷ [];
}

refused_here : (upsert_canonical_event 5 envelope unscored routing start).1 ≡ err null_value
unfolding upsert_canonical_event upsert_receptor_matches
refused_here = refl

found_here :
    (upsert_canonical_event 9 envelope result routing
      (upsert_canonical_event 5 envelope unscored routing start).0).1
    ≡ ok (record { daemon_event_id = 1; inserted = false })
unfolding upsert_canonical_event upsert_receptor_matches
found_here = refl

abbrev sent : Database ℕ
sent = write_delivered 6 1 (upsert_sink_delivery 5 1 1 wake start).0

delivered_kept_example :
    let r = upsert_sink_delivery 9 1 1 wake sent in
    let before = delivery 1 1 sent in
    let after = delivery 1 1 r.0 in
    (r.1 ≡ ok (get_or (option_map (λ x. x.id) before) sent.sink_delivery.next_id))
    × (option_map is_delivered after ≡ some (get_or (option_map is_delivered before) false))
delivered_kept_example = delivered_kept 9 1 1 wake sent
