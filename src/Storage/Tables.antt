-- ===== src/Storage/Tables.antt =====
-- src/storage.rs: the rows of the tables, and the values that the store's operations take.
pub mod Finding
use subspace_daemon.Base.{
  Bool, List, Option, String, [], any, append_text, filter, if◌then◌else◌, length, map, suc, ℕ,
  ◌++◌, ◌∷◌,
}
use subspace_daemon.Attention.Evaluate.{
  MessageEmbedding, AttentionDisposition, deliver, filtered, no_active_receptor, vetoed,
  evaluation_unavailable, veto_enforcement_unavailable, AttentionResult, ReceptorMatch,
}
use subspace_daemon.Storage.Schema.{Schema}

pub data SinkKind : Type 0 where
  db agent_session_wake : SinkKind

pub record SinkConfig : Type 0 where
  pub key : String
  pub kind : SinkKind
  pub enabled : Bool
  pub destination : Option String

pub record SinkSnapshot : Type 0 where
  pub sink_key : String
  pub sink_kind : SinkKind
  pub destination : String
  pub config_json : String

pub record SinkRoutingEntry : Type 0 where
  pub sink_key : String
  pub sink_kind : SinkKind
  pub destination : String

pub record RoutingSnapshot : Type 0 where
  pub candidate_sinks : List SinkRoutingEntry
  pub selected_sinks : List SinkRoutingEntry

-- the fields of `WakeEnvelope` that the store reads
pub record WakeEnvelope (F : Type 0) : Type 0 where
  pub server : String
  pub server_key : String
  pub message_id : String
  pub timestamp : String
  pub inbound_event : String
  pub author_id : String
  pub author_name : String
  pub text : String
  pub sender_embeddings : List (MessageEmbedding F)

pub record EventRecord : Type 0 where
  pub daemon_event_id : ℕ
  pub inserted : Bool

pub record DeliveryTicket : Type 0 where
  pub daemon_event_id : ℕ
  pub delivery_id : ℕ
  pub already_delivered : Bool

pub record IngressSource : Type 0 where
  pub id : ℕ
  pub server : String
  pub server_key : String
  pub created_at : ℕ

-- `attention_evidence_json`, before it is printed
pub record AttentionEvidence (F : Type 0) : Type 0 where
  pub matches : List (ReceptorMatch F)
  pub match_count : ℕ
  pub accepted_match_count : ℕ

pub record AttentionDecision (F : Type 0) : Type 0 where
  pub id : ℕ
  pub ingress_source_id : ℕ
  pub message_id : String
  pub message_timestamp : String
  pub disposition : String
  pub delivery_eligible : Bool
  pub attention_space_id : Option String
  pub attention_fallback : Bool
  pub veto_not_evaluated : Bool
  pub evidence : AttentionEvidence F
  pub decided_at : ℕ

-- `payload_json` is the same fields of the envelope once more, and `raw_body` its text.
pub record DaemonEvent (F : Type 0) : Type 0 where
  pub id : ℕ
  pub ingress_source_id : ℕ
  pub envelope : WakeEnvelope F
  pub attention_space_id : Option String
  pub attention_fallback : Bool
  pub attention_disposition : String
  pub attention_delivery_mode : String
  pub raw_body : String
  pub accepted_at : ℕ

pub record EventIdempotency : Type 0 where
  pub id : ℕ
  pub ingress_source_id : ℕ
  pub scope : String
  pub idempotency_key : String
  pub daemon_event_id : ℕ
  pub created_at : ℕ

-- `receptor_routing_json`, before it is printed
pub record ReceptorRouting (F : Type 0) : Type 0 where
  pub decision : String
  pub candidate_sinks : List SinkRoutingEntry
  pub selected_sinks : List SinkRoutingEntry
  pub score : F
  pub threshold : F

pub record ReceptorMatchRow (F : Type 0) : Type 0 where
  pub id : ℕ
  pub daemon_event_id : ℕ
  pub receptor_id : String
  pub receptor_class : String
  pub score : F
  pub threshold : F
  pub above_threshold : Bool
  pub routing : ReceptorRouting F
  pub matched_at : ℕ

pub record SinkTarget : Type 0 where
  pub id : ℕ
  pub sink_key : String
  pub sink_kind : SinkKind
  pub destination : String
  pub config_json : String
  pub disabled_at : Option ℕ
  pub disabled_reason : Option String
  pub created_at : ℕ
  pub updated_at : ℕ

pub data DeliveryStatus : Type 0 where
  queued attempted failed delivered : DeliveryStatus

pub record SinkDelivery : Type 0 where
  pub id : ℕ
  pub daemon_event_id : ℕ
  pub sink_target_id : ℕ
  pub snapshot : SinkSnapshot
  pub status : DeliveryStatus
  pub queued_at : ℕ
  pub attempted_at : Option ℕ
  pub delivered_at : Option ℕ
  pub failed_at : Option ℕ
  pub skipped_at : Option ℕ
  pub error : Option String

-- A table: its rows in the order of their insertion, and the next `AUTOINCREMENT` id.
pub record Table (R : Type 0) : Type 0 where
  pub rows : List R
  pub next_id : ℕ

pub record Database (F : Type 0) : Type 0 where
  pub schema : Schema
  pub ingress_source : Table IngressSource
  pub attention_decision : Table (AttentionDecision F)
  pub daemon_event : Table (DaemonEvent F)
  pub event_idempotency : Table EventIdempotency
  pub receptor_match : Table (ReceptorMatchRow F)
  pub sink_target : Table SinkTarget
  pub sink_delivery : Table SinkDelivery
  -- the floats that SQLite stores as NULL, which a NOT NULL column refuses
  pub is_null : F → Bool

-- `INSERT ... ON CONFLICT(...) DO UPDATE`: the rows in conflict are updated, or a row is added.
unfoldable pub upsert : {R : Type 0} → (R → Bool) → (R → R) → (ℕ → R) → Table R → Table R
upsert conflict update fresh t =
    if any conflict t.rows
    then record { rows = map (λ r. if conflict r then update r else r) t.rows; next_id = t.next_id }
    else record { rows = t.rows ++ (fresh t.next_id ∷ []); next_id = suc t.next_id }

-- `UPDATE ... WHERE`
unfoldable pub update_where : {R : Type 0} → (R → Bool) → (R → R) → Table R → Table R
update_where chosen update t = record {
  rows = map (λ r. if chosen r then update r else r) t.rows;
  next_id = t.next_id;
}

unfoldable pub attention_disposition_str : AttentionDisposition → String
attention_disposition_str deliver = "deliver"
attention_disposition_str filtered = "filtered"
attention_disposition_str no_active_receptor = "no_active_receptor"
attention_disposition_str vetoed = "vetoed"
attention_disposition_str evaluation_unavailable = "evaluation_unavailable"
attention_disposition_str veto_enforcement_unavailable = "veto_enforcement_unavailable"

unfoldable pub compute_event_idempotency_key : {F : Type 0} → WakeEnvelope F → String
compute_event_idempotency_key e = append_text e.server_key (append_text ":" e.message_id)

unfoldable pub attention_delivery_mode : {F : Type 0} → AttentionResult F → String
attention_delivery_mode a = if a.fallback then "implicit_wildcard_fallback" else "receptor_gated"

unfoldable pub receptor_routing_json :
    {F : Type 0} → ReceptorMatch F → RoutingSnapshot → ReceptorRouting F
receptor_routing_json m routing = record {
  decision = if m.above_threshold then "accepted" else "candidate";
  candidate_sinks = routing.candidate_sinks;
  selected_sinks = routing.selected_sinks;
  score = m.score;
  threshold = m.threshold;
}

unfoldable pub attention_evidence_json : {F : Type 0} → AttentionResult F → AttentionEvidence F
attention_evidence_json a = record {
  matches = a.matches;
  match_count = length a.matches;
  accepted_match_count = length (filter (λ m. m.above_threshold) a.matches);
}
