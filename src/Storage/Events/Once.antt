-- ===== src/Storage/Events/Once.antt =====
-- A message is one event, however often it is recorded.
use subspace_daemon.Base.{Bool, List, String, any, false, get_or, none, some, true, ℕ, ◌||◌, ◌≡◌}
use subspace_daemon.Attention.Evaluate.{AttentionResult, ReceptorMatch}
use subspace_daemon.Storage.Action.{◌⟫◌, Action, pure}
use subspace_daemon.Storage.Tables.{
  Database, IngressSource, WakeEnvelope, RoutingSnapshot, EventRecord,
  compute_event_idempotency_key,
}
use subspace_daemon.Storage.Events.{
  ingress_source_id, lookup_existing_event, write_ingress_source, upsert_receptor_matches,
  insert_daemon_event, insert_idempotency,
}

abbrev rename : String → IngressSource → IngressSource
rename server r = record r { server = server }

module _ {F : Type 0} where
  -- Two databases have the same sources, events and keys of events, and the same NULLs.
  abbrev pub SameEvents : Database F → Database F → Type 0
  SameEvents d c =
      (d.ingress_source ≡ c.ingress_source)
      × (d.daemon_event ≡ c.daemon_event)
      × (d.event_idempotency ≡ c.event_idempotency)
      × (d.is_null ≡ c.is_null)

  -- Some match has a score or a threshold that is stored as NULL.
  abbrev pub has_null : Database F → List (ReceptorMatch F) → Bool
  has_null d ms = any (λ m. d.is_null m.score || d.is_null m.threshold) ms

  -- the matches, and then the record of the event
  abbrev recorded :
      ℕ → ℕ → RoutingSnapshot → List (ReceptorMatch F) → EventRecord → Action F EventRecord
  recorded now event routing ms r = upsert_receptor_matches now event routing ms ⟫ pure r

  -- the event that `write_event` finds or makes
  abbrev event_of : WakeEnvelope F → ℕ → Database F → EventRecord
  event_of e source d = elim (lookup_existing_event source (compute_event_idempotency_key e) d) [
    | some existing ↦ record { daemon_event_id = existing; inserted = false }
    | none ↦ record { daemon_event_id = d.daemon_event.next_id; inserted = true }
  ]

  -- the id of the source that `upsert_ingress_source` returns
  abbrev source_of : String → Database F → ℕ
  source_of key d = get_or (ingress_source_id key d) d.ingress_source.next_id

  abbrev inserted : ℕ → ℕ → WakeEnvelope F → AttentionResult F → Database F → Database F
  inserted now source e a d =
      insert_idempotency now source (compute_event_idempotency_key e) d.daemon_event.next_id
        (insert_daemon_event now source e a d)

  -- the event that `upsert_canonical_event` finds or makes
  abbrev canonical_event : ℕ → WakeEnvelope F → Database F → EventRecord
  canonical_event now e d =
      event_of e (source_of e.server_key d) (write_ingress_source now e.server e.server_key d)
