-- ===== src/Subspace/Live.antt =====
-- src/subspace/client.rs, `connect_once`: the loop of a connection that is live.
mod State
pub mod Balance
pub mod Answered
pub mod Effect
pub mod Once
unfoldable pub use State.*
use subspace_daemon.Base.{
  List, Option, Result, String, [], append_text, err, get_or, if◌then◌else◌, is_empty_text, none,
  not, ok, some, ℕ, ◌&&◌, ◌++◌, ◌==◌, ◌||◌, ◌∷◌,
}
use subspace_daemon.Base.Json.{Json, str, obj, Fields, end, field, get, as_str}
use subspace_daemon.Attention.Float.{Float}
use subspace_daemon.Attention.Plugin.{EmbeddingBackendConfig}
use subspace_daemon.Attention.Layer.{AttentionLayer, Environment}
use subspace_daemon.Attention.Evaluate.{MessageEmbedding}
use subspace_daemon.Attention.Outbound.{OutboundEmbeddingRequest, compose_outbound_embeddings}
use subspace_daemon.Config.Stored.{ServerConfig}
use subspace_daemon.HardFailure.{HardFailureEvent}
use subspace_daemon.Ipc.{OutboundSendResult}
use subspace_daemon.Pending.{take, put}
use subspace_daemon.Runtime.Store.{
  RuntimeStore, Rfc3339, should_enqueue, mark_failed, mark_processed,
}
use subspace_daemon.Status.{
  DaemonStatus, set_server_state, set_server_session_expires_at, session_expires_soon,
}
use subspace_daemon.Storage.Tables.{WakeEnvelope}
use subspace_daemon.Subspace.Auth.{SessionAuth, texts}
use subspace_daemon.Subspace.Frames.{
  Message, WsFrame, body, ignore, closed, ws_text, closed_text, text_of, has_member,
  parse_message_embeddings,
}
use subspace_daemon.Subspace.Payloads.{
  Link, server_hard_failure_event, is_token_error, heartbeat, message_id_of, reply_error,
  post_message, inbound_item,
}
use subspace_daemon.Subspace.Session.{
  ActiveSession, agent_id, session_expires_at, clear_session_token, update_session_token,
}
use subspace_daemon.Wake.Process.{Item}

module _ (fl : Float) (env : Environment fl.F) {N K P : Type 0} (link : Link fl.F N)
    (server : ServerConfig P) (clients : List (String × EmbeddingBackendConfig))
    (attention : AttentionLayer fl.F) where
  open fl use {F}

  unfoldable pub update_server_state : String → Live F N K → Live F N K
  unfolding set_server_state
  update_server_state value s = record s {
    status = set_server_state server.base_url server.server_key value s.status;
  }

  unfoldable pub update_server_session_expires_at : Live F N K → Live F N K
  unfolding set_server_session_expires_at session_expires_at
  update_server_session_expires_at s = record s {
    status =
        set_server_session_expires_at server.base_url server.server_key
          (session_expires_at s.session) s.status;
  }

  -- `session.persist(…)?`, and what comes after it
  abbrev pub persisted :
      Failure → (Live F N K → Live F N K × Ended) → Live F N K → Live F N K × Ended
  persisted none rest s = rest (record s { saved = some s.session })
  persisted (some e) rest s = (s, bails e)

  -- `write.send(…).await?` and what comes after it
  abbrev pub sent :
      Failure → Json N → (Live F N K → Live F N K × Ended) → Live F N K → Live F N K × Ended
  sent none frame rest s = rest (record s { frames = s.frames ++ (frame ∷ []) })
  sent (some e) frame rest s = (s, bails e)

  -- the refresh of a session that expires soon
  unfoldable pub refresh : Result String SessionAuth → Failure → Live F N K → Live F N K × Ended
  unfolding update_server_state update_session_token update_server_session_expires_at
      fail_pending_sends
  refresh (ok auth) writing s =
      persisted writing
        (λ t.
          on (bails session_refreshed_reconnecting) (
            fail_pending_sends session_refreshed_reconnecting (update_server_session_expires_at t)))
        (record s { session = update_session_token auth s.session })
  refresh (err e) writing s = on (bails (append_text "subspace session refresh failed: " e)) (
      fail_pending_sends "subspace session refresh failed"
        (update_server_state "subspace_auth_required" s))

  -- the branch `heartbeat.tick()`
  unfoldable pub on_tick :
      ℕ → Result String SessionAuth → Failure → Failure → String → Live F N K → Live F N K × Ended
  unfolding session_expires_soon session_expires_at update_server_state refresh heartbeat
  on_tick now reauth writing sending ref s =
      if session_expires_soon link.clock now (session_expires_at s.session)
      then refresh reauth writing (update_server_state "authenticating" s)
      else sent sending (heartbeat ref) (on goes_on) s

  -- The branch of a command; `ref` and `fresh` are new UUIDs. Where the frame is not written, the
  -- sender of the reply is dropped.
  unfoldable pub on_command :
      ℕ
      → String
      → Option String
      → OutboundEmbeddingRequest F
      → String
      → String
      → Failure
      → Live F N K
      → Live F N K × Ended
  unfolding compose_outbound_embeddings post_message add_pending drop_reply
  on_command reply text key request ref fresh sending s =
      let idem = get_or key fresh in
      let p : PendingSend = record { reply = reply; idempotency_key = idem } in
      let embeddings = compose_outbound_embeddings fl env text request clients in
      elim sending [
        | some e ↦ (drop_reply (some p) s, bails e)
        | none ↦
            sent none (post_message link server text idem embeddings ref)
              (λ t. on goes_on (add_pending ref p t)) s
      ]

  -- `wake_tx.try_send(envelope)`
  unfoldable pub enqueue : Item F → Room → Live F N K → Live F N K × Ended
  unfolding mark_failed
  enqueue item room s = (record s { queue = s.queue ++ (item ∷ []) }, goes_on)
  enqueue item full s = (
    record s { runtime = mark_failed item.envelope.message_id s.runtime },
    bails "wake queue full",
  )
  enqueue item gone s = (
    record s { runtime = mark_failed item.envelope.message_id s.runtime },
    bails "wake queue closed",
  )

  -- a message that has an id and a time and is not the agent's own
  unfoldable pub accept : Item F → Room → Live F N K → Live F N K × Ended
  unfolding should_enqueue enqueue
  accept item capacity s =
      let asked =
        should_enqueue link.clock item.envelope.message_id item.envelope.timestamp s.runtime in
      let t = record s { runtime = asked.0 } in
      let accepted = enqueue item capacity t in if asked.1 then accepted else (t, goes_on)

  -- the events `new_message` and `replay_message`
  unfoldable pub on_message : Json N → Room → Live F N K → Live F N K × Ended
  unfolding inbound_item agent_id accept
  on_message parsed capacity s =
      let item =
        inbound_item link server attention parsed (get_or (get "payload" parsed) (obj end)) in
      if item.envelope.author_id == agent_id s.session
      then (s, goes_on)
      else if is_empty_text item.envelope.message_id || is_empty_text item.envelope.timestamp
      then (s, goes_on)
      else accept item capacity s

  -- a response that is not `ok`, after the session is taken care of
  unfoldable pub answer_failure : PendingSend → String → Live F N K → Live F N K × Ended
  unfolding add_reply server_hard_failure_event
  answer_failure p error s = on goes_on (
      add_reply p.reply (err error) (record s {
        failures =
            s.failures
            ++ (server_hard_failure_event server "subspace_post_message_failed" error ∷ []);
      }))

  -- The same for an error of the token, which is cleared. Where the session is not written, the
  -- sender of the reply is dropped.
  unfoldable pub answer_token_error :
      PendingSend → String → Failure → Live F N K → Live F N K × Ended
  unfolding clear_session_token answer_failure drop_reply
  answer_token_error p error writing s =
      let cleared = record s { session = clear_session_token s.session } in
      elim writing [
        | none ↦ answer_failure p error (record cleared { saved = some cleared.session })
        | some e ↦ (drop_reply (some p) cleared, bails e)
      ]

  -- the response to a pending request, which was taken out
  unfoldable pub answer : PendingSend → Json N → Failure → Live F N K → Live F N K × Ended
  unfolding text_of message_id_of reply_error answer_failure answer_token_error add_reply
  answer p payload writing s =
      let error = reply_error payload in
      if get_or (text_of "status" payload) "" == "ok"
      then on goes_on (
          add_reply p.reply
            (ok (record {
              server = server.base_url;
              subspace_message_id = message_id_of payload;
              idempotency_key = p.idempotency_key;
            }))
            s)
      else if is_token_error error
      then answer_token_error p error writing s
      else answer_failure p error s

  -- the event `phx_reply`
  unfoldable pub on_reply : Json N → Failure → Live F N K → Live F N K × Ended
  unfolding text_of take answer
  on_reply parsed writing s = elim (text_of "ref" parsed) [
    | none ↦ (s, goes_on)
    | some ref ↦
        let taken = take ref s.pending in
        elim taken.0 [
          | none ↦ (s, goes_on)
          | some p ↦
              answer p (get_or (get "payload" parsed) (obj end)) writing
                (record s { pending = taken.1 })
        ]
  ]

  unfoldable pub on_frame : Json N → Room → Failure → Live F N K → Live F N K × Ended
  unfolding has_member text_of on_message on_reply
  on_frame parsed capacity writing s =
      let event = get_or (text_of "event" parsed) "" in
      if has_member "topic" "phoenix" parsed && has_member "event" "heartbeat" parsed
      then (s, goes_on)
      else if not (has_member "topic" "firehose" parsed)
      then (s, goes_on)
      else if event == "new_message" || event == "replay_message"
      then on_message parsed capacity s
      else if event == "phx_reply"
      then on_reply parsed writing s
      else (s, goes_on)

  unfoldable pub on_text : String → Room → Failure → Live F N K → Live F N K × Ended
  unfolding on_frame
  on_text raw capacity writing s = elim (link.parse raw) [
    | err e ↦ (s, goes_on)
    | ok parsed ↦ on_frame parsed capacity writing s
  ]

  unfoldable pub on_received : Message → Room → Failure → Live F N K → Live F N K × Ended
  unfolding ws_text closed_text on_text
  on_received message capacity writing s = elim (ws_text message) [
    | err e ↦ (s, bails e)
    | ok ignore ↦ (s, goes_on)
    | ok (closed code reason) ↦
        (s, bails (closed_text link.quote "subspace websocket closed" code reason))
    | ok (body raw) ↦ on_text raw capacity writing s
  ]

  -- one round of the loop
  unfoldable pub step : Event F → Live F N K → Live F N K × Ended
  unfolding on_tick on_command on_received mark_processed
  step shutdown s = (s, stops)
  step commands_closed s = (s, stops)
  step stream_ended s = (s, bails "subspace websocket closed")
  step (tick now reauth writing sending ref) s = on_tick now reauth writing sending ref s
  step (command reply text key request ref fresh sending) s =
      on_command reply text key request ref fresh sending s
  step (stream_error e) s = (s, bails e)
  step (received message capacity writing) s = on_received message capacity writing s
  step (processed id timestamp) s =
      (record s { runtime = mark_processed id timestamp s.runtime }, goes_on)

  abbrev pub then_run : (Live F N K → Live F N K × Ended) → Live F N K × Ended → Live F N K × Ended
  then_run rest (s, goes_on) = rest s
  then_run rest (s, stops) = (close s, stops)
  then_run rest (s, bails e) = (close s, bails e)

  -- The loop: it waits where the given events are over.
  unfoldable pub live_loop : List (Event F) → Live F N K → Live F N K × Ended
  unfolding step close
  live_loop [] s = (s, goes_on)
  live_loop (e ∷ es) s = then_run (live_loop es) (step e s)
