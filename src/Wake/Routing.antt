-- ===== src/Wake/Routing.antt =====
-- src/supervisor.rs and src/attention/mod.rs: the sinks of a wake, and its text.
use subspace_daemon.Base.{
  Bool, List, Option, String, [], append_text, false, filter, find?, get_or, if◌then◌else◌,
  is_empty, is_empty_text, join, length, map, none, not, option_map, some, trim, true, ℕ, ◌&&◌,
  ◌++◌, ◌∷◌,
}
use subspace_daemon.Attention.Evaluate.{AttentionResult, ReceptorMatch}
use subspace_daemon.Attention.Receptor.{as_str}
use subspace_daemon.Storage.Tables.{
  SinkConfig, db, agent_session_wake, SinkRoutingEntry, WakeEnvelope,
}
use subspace_daemon.Storage.Store.{DeliveryStore}

abbrev pub is_db : SinkConfig → Bool
is_db s = elim s.kind [ db ↦ true | agent_session_wake ↦ false ]

-- `wake_session_key_override` and `default_wake_session_key`
unfoldable pub routing_entry_for_sink :
    SinkConfig → Option String → String → Option DeliveryStore → SinkRoutingEntry
routing_entry_for_sink s override default store = record {
  sink_key = s.key;
  sink_kind = s.kind;
  destination = get_or s.destination (elim s.kind [
    | db ↦ get_or (option_map (λ t. t.database_path) store) "db"
    | agent_session_wake ↦ get_or override default
  ]);
}

unfoldable pub routing_entries_for_sinks :
    List SinkConfig → Option String → String → Option DeliveryStore → List SinkRoutingEntry
unfolding routing_entry_for_sink
routing_entries_for_sinks sinks override default store =
    map (λ s. routing_entry_for_sink s override default store) (filter (λ s. s.enabled) sinks)

unfoldable pub enabled_sink_count : List SinkConfig → ℕ
enabled_sink_count sinks = length (filter (λ s. s.enabled) sinks)

-- `db_sink` and `wake_sinks` of `process_wake_queue`
unfoldable pub db_sink : List SinkConfig → Option SinkConfig
db_sink sinks = find? (λ s. s.enabled && is_db s) sinks

unfoldable pub wake_sinks : List SinkConfig → List SinkConfig
wake_sinks sinks = filter (λ s. s.enabled && not (is_db s)) sinks

unfoldable pub selected_sinks :
    List SinkConfig → Option String → String → Option DeliveryStore → List SinkRoutingEntry
unfolding routing_entry_for_sink db_sink wake_sinks
selected_sinks sinks override default store =
    let entry = λ (s : SinkConfig). routing_entry_for_sink s override default store in
    elim (db_sink sinks) [ none ↦ [] | some s ↦ entry s ∷ [] ] ++ map entry (wake_sinks sinks)

unfoldable pub effective_session_key : SinkConfig → Option String → String → String
effective_session_key s override default = get_or s.destination (get_or override default)

-- `show_score` is the format `{:.3}` of an f32.
module _ {F : Type 0} (show_score : F → String) where
  unfoldable pub annotation_line : ReceptorMatch F → String
  annotation_line m = join "" (
      "  - "
      ∷ m.receptor_id
      ∷ " ["
      ∷ as_str m.receptor_class
      ∷ "] ("
      ∷ show_score m.score
      ∷ " >= "
      ∷ show_score m.threshold
      ∷ ")"
      ∷ [])

  unfoldable pub format_attention_annotation : AttentionResult F → Option String
  unfolding annotation_line
  format_attention_annotation a =
      let matched = filter (λ m. m.above_threshold) a.matches in
      if is_empty a.matches
      then none
      else if is_empty matched
      then none
      else some (join "\n" ("ReceptorMatches:" ∷ map annotation_line matched))

  unfoldable pub render_inbound_wake : WakeEnvelope F → AttentionResult F → String
  unfolding format_attention_annotation
  render_inbound_wake e a =
      let from = if is_empty_text (trim e.author_name) then e.author_id else e.author_name in
      let annotation : List String = elim (format_attention_annotation a) [
        | none ↦ []
        | some line ↦ line ∷ []
      ] in
      join "\n" (
        ("[Subspace inbound]"
          ∷ append_text "Server: " e.server
          ∷ append_text "ServerKey: " e.server_key
          ∷ append_text "From: " from
          ∷ append_text "MessageId: " e.message_id
          ∷ [])
        ++ (annotation ++ ("" ∷ e.text ∷ [])))
