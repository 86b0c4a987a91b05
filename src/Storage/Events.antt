-- ===== src/Storage/Events.antt =====
-- src/storage.rs: the statements on the ingress sources, the events and their receptor matches.
pub mod Once
use subspace_daemon.Base.{
  Bool, List, Option, String, [], eqb, err, false, find?, if◌then◌else◌, none, ok, option_map, some,
  suc, true, ℕ, ◌&&◌, ◌++◌, ◌==◌, ◌||◌, ◌∷◌,
}
use subspace_daemon.Attention.Evaluate.{AttentionResult, ReceptorMatch}
use subspace_daemon.Attention.Receptor.{as_str}
use subspace_daemon.Storage.Schema.{null_value}
use subspace_daemon.Storage.Action.{Action, modify, query_row, ◌⟫=◌, ◌⟫◌, pure}
use subspace_daemon.Storage.Tables.{
  Database, EventIdempotency, IngressSource, WakeEnvelope, RoutingSnapshot, EventRecord, upsert,
  attention_disposition_str, compute_event_idempotency_key, attention_delivery_mode,
  receptor_routing_json, attention_evidence_json,
}

abbrev pub is_key_of : ℕ → String → EventIdempotency → Bool
is_key_of source key r =
    eqb r.ingress_source_id source && (r.scope == "subspace_message") && (r.idempotency_key == key)

abbrev pub new_source : ℕ → String → String → ℕ → IngressSource
new_source now server server_key id = record {
  id = id;
  server = server;
  server_key = server_key;
  created_at = now;
}

abbrev pub new_idempotency : ℕ → ℕ → String → ℕ → ℕ → EventIdempotency
new_idempotency now source key event id = record {
  id = id;
  ingress_source_id = source;
  scope = "subspace_message";
  idempotency_key = key;
  daemon_event_id = event;
  created_at = now;
}

module _ {F : Type 0} where
  unfoldable pub ingress_source_id : String → Database F → Option ℕ
  ingress_source_id server_key d =
      option_map (λ r. r.id) (find? (λ r. r.server_key == server_key) d.ingress_source.rows)

  unfoldable pub lookup_existing_event : ℕ → String → Database F → Option ℕ
  lookup_existing_event source key d =
      option_map (λ r. r.daemon_event_id) (find? (is_key_of source key) d.event_idempotency.rows)

module _ {F : Type 0} (now : ℕ) where
  unfoldable pub write_ingress_source : String → String → Database F → Database F
  unfolding upsert
  write_ingress_source server server_key d = record d {
    ingress_source =
        upsert (λ r. r.server_key == server_key) (λ r. record r { server = server })
          (new_source now server server_key) d.ingress_source;
  }

  unfoldable pub upsert_ingress_source : String → String → Action F ℕ
  unfolding write_ingress_source ingress_source_id
  upsert_ingress_source server server_key =
      modify (write_ingress_source server server_key) ⟫ query_row (ingress_source_id server_key)

  unfoldable pub upsert_receptor_match : ℕ → RoutingSnapshot → ReceptorMatch F → Action F (Unit {0})
  unfolding upsert receptor_routing_json
  upsert_receptor_match event routing m d =
      if d.is_null m.score || d.is_null m.threshold then (d, err null_value) else (
        record d {
          receptor_match =
              upsert
                (λ r.
                  eqb r.daemon_event_id event
                  && (r.receptor_id == m.receptor_id)
                  && (r.receptor_class == as_str m.receptor_class))
                (λ r. record r {
                  score = m.score;
                  threshold = m.threshold;
                  above_threshold = m.above_threshold;
                  routing = receptor_routing_json m routing;
                })
                (λ id. record {
                  id = id;
                  daemon_event_id = event;
                  receptor_id = m.receptor_id;
                  receptor_class = as_str m.receptor_class;
                  score = m.score;
                  threshold = m.threshold;
                  above_threshold = m.above_threshold;
                  routing = receptor_routing_json m routing;
                  matched_at = now;
                })
                d.receptor_match;
        },
        ok tt,
      )

  unfoldable pub upsert_receptor_matches :
      ℕ → RoutingSnapshot → List (ReceptorMatch F) → Action F (Unit {0})
  unfolding upsert_receptor_match
  upsert_receptor_matches event routing [] = pure tt
  upsert_receptor_matches event routing (m ∷ ms) =
      upsert_receptor_match event routing m ⟫ upsert_receptor_matches event routing ms

  -- the `INSERT INTO daemon_event`
  unfoldable pub insert_daemon_event :
      ℕ → WakeEnvelope F → AttentionResult F → Database F → Database F
  unfolding attention_disposition_str attention_delivery_mode
  insert_daemon_event source e a d = record d {
    daemon_event = record {
      rows =
          d.daemon_event.rows
          ++ (record {
            id = d.daemon_event.next_id;
            ingress_source_id = source;
            envelope = e;
            attention_space_id = a.space_id;
            attention_fallback = a.fallback;
            attention_disposition = attention_disposition_str a.disposition;
            attention_delivery_mode = attention_delivery_mode a;
            raw_body = e.text;
            accepted_at = now;
          }
              ∷ []);
      next_id = suc d.daemon_event.next_id;
    };
  }

  -- the `INSERT INTO event_idempotency`
  unfoldable pub insert_idempotency : ℕ → String → ℕ → Database F → Database F
  insert_idempotency source key event d = record d {
    event_idempotency = record {
      rows =
          d.event_idempotency.rows
          ++ (new_idempotency now source key event d.event_idempotency.next_id ∷ []);
      next_id = suc d.event_idempotency.next_id;
    };
  }

  -- `upsert_canonical_event`, after the id of the ingress source is known
  unfoldable pub write_event :
      WakeEnvelope F → AttentionResult F → RoutingSnapshot → ℕ → Action F EventRecord
  unfolding lookup_existing_event compute_event_idempotency_key insert_daemon_event
      insert_idempotency
  write_event e a routing source d =
      let key = compute_event_idempotency_key e in
      let event = d.daemon_event.next_id in
      elim (lookup_existing_event source key d) [
        | some existing ↦
            (upsert_receptor_matches existing routing a.matches
                ⟫ pure (record { daemon_event_id = existing; inserted = false }))
              d
        | none ↦
            (upsert_receptor_matches event routing a.matches
                ⟫ pure (record { daemon_event_id = event; inserted = true }))
              (insert_idempotency source key event (insert_daemon_event source e a d))
      ]

  unfoldable pub upsert_canonical_event :
      WakeEnvelope F → AttentionResult F → RoutingSnapshot → Action F EventRecord
  unfolding upsert_ingress_source write_event
  upsert_canonical_event e a routing =
      upsert_ingress_source e.server e.server_key ⟫= write_event e a routing

  unfoldable pub write_decision : WakeEnvelope F → AttentionResult F → ℕ → Database F → Database F
  unfolding upsert attention_disposition_str attention_evidence_json
  write_decision e a source d = record d {
    attention_decision =
        upsert (λ r. eqb r.ingress_source_id source && (r.message_id == e.message_id))
          (λ r. record r {
            message_timestamp = e.timestamp;
            disposition = attention_disposition_str a.disposition;
            delivery_eligible = a.deliver;
            attention_space_id = a.space_id;
            attention_fallback = a.fallback;
            veto_not_evaluated = a.veto_not_evaluated;
            evidence = attention_evidence_json a;
            decided_at = now;
          })
          (λ id. record {
            id = id;
            ingress_source_id = source;
            message_id = e.message_id;
            message_timestamp = e.timestamp;
            disposition = attention_disposition_str a.disposition;
            delivery_eligible = a.deliver;
            attention_space_id = a.space_id;
            attention_fallback = a.fallback;
            veto_not_evaluated = a.veto_not_evaluated;
            evidence = attention_evidence_json a;
            decided_at = now;
          })
          d.attention_decision;
  }
