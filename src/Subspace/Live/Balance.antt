-- ===== src/Subspace/Live/Balance.antt =====
-- How often a request is answered or waits, through a round of the loop.
use subspace_daemon.Base.{
  Bool, List, Option, Option-cases, Result, Result-cases, String, [], arith, eqb, err, false,
  get_or, if◌then◌else◌, inl, inr, is_empty_text, none, not, ok, refl, some, true, ℕ, ◌&&◌, ◌++◌,
  ◌+◌, ◌==◌, ◌||◌, ◌∙◌, ◌∷◌, ◌≡◌,
}
use subspace_daemon.Base.Json.{Json, obj, end, get}
use subspace_daemon.Attention.Float.{Float}
use subspace_daemon.Attention.Plugin.{EmbeddingBackendConfig}
use subspace_daemon.Attention.Layer.{AttentionLayer, Environment}
use subspace_daemon.Attention.Outbound.{OutboundEmbeddingRequest, compose_outbound_embeddings}
use subspace_daemon.Config.Stored.{ServerConfig}
use subspace_daemon.Ipc.{OutboundSendResult}
use subspace_daemon.Pending.{
  answered, answered-append, take, put, one, waiting, waiting-put, waiting_taken,
}
use subspace_daemon.Subspace.Auth.{SessionAuth}
use subspace_daemon.Subspace.Frames.{Message, body, ignore, closed, ws_text, text_of, has_member}
use subspace_daemon.Subspace.Payloads.{
  post_message, server_hard_failure_event, Link, is_token_error, reply_error,
}
use subspace_daemon.Subspace.Live.{
  PendingSend, Live, Room, room, full, gone, Failure, Event, shutdown, commands_closed,
  stream_ended, tick, command, stream_error, received, processed, Ended, add_reply, answers,
  fail_pending_sends, drop_reply, close, refresh, on_tick, add_pending, on_command, enqueue, accept,
  on_message, answer_failure, answer, on_reply, on_frame, on_text, on_received, step,
  update_server_state, update_server_session_expires_at, session_refreshed_reconnecting, Item,
  server_hard_failure_event, clear_session_token, inbound_item, message_id_of, should_enqueue,
  agent_id, answer_token_error,
}

abbrev pub is_reply_to : ℕ → PendingSend → Bool
is_reply_to n p = eqb p.reply n

answered-answers :
    (n : ℕ) (result : Result String OutboundSendResult) (pending : List (String × PendingSend))
    → answered n (answers result pending) ≡ waiting (is_reply_to n) pending
answered-answers n result [] = refl
answered-answers n result ((ref, p) ∷ pending) = omega (arith, answered-answers n result pending)

module _ {F N K : Type 0} (n : ℕ) where
  -- how often a request is answered or waits
  abbrev pub balance : Live F N K → ℕ
  balance s = answered n s.replies + waiting (is_reply_to n) s.pending

  pub if-balance :
      (b : Bool) (x y : Live F N K × Ended) (m : ℕ)
      → balance x.0 ≡ m
      → balance y.0 ≡ m
      → balance (if b then x else y).0 ≡ m
  if-balance true x y m h k = h
  if-balance false x y m h k = k

  fail_pending_sends-balance :
      (message : String) (s : Live F N K) → balance (fail_pending_sends message s) ≡ balance s
  unfolding fail_pending_sends
  fail_pending_sends-balance message s = omega (
    arith,
    answered-append n s.replies (answers (err message) s.pending),
    answered-answers n (err message) s.pending,
  )

  add_reply-balance :
      (reply : ℕ) (result : Result String OutboundSendResult) (s : Live F N K)
      → balance (add_reply reply result s) ≡ (if eqb reply n then 1 else 0) + balance s
  unfolding add_reply
  add_reply-balance reply result s =
      omega (arith, answered-append n s.replies ((reply, result) ∷ []))

  drop_reply-balance :
      (p : Option PendingSend) (s : Live F N K)
      → balance (drop_reply p s) ≡ one (is_reply_to n) p + balance s
  unfolding drop_reply
  drop_reply-balance none s = omega arith
  drop_reply-balance (some p) s =
      add_reply-balance p.reply (err "subspace server reply channel closed") s

  pub close-balance : (s : Live F N K) → balance (close s) ≡ balance s
  unfolding close
  close-balance s = fail_pending_sends-balance "subspace server reply channel closed" s

  taken-balance :
      (ref : String) (p : PendingSend) (s : Live F N K)
      → (take ref s.pending).0 ≡ some p
      → (if eqb p.reply n then 1 else 0) + balance (record s { pending = (take ref s.pending).1 })
        ≡ balance s
  taken-balance ref p s h = omega (arith, waiting_taken (is_reply_to n) ref p s.pending h)

  add_pending-balance :
      (ref : String) (p : PendingSend) (s : Live F N K)
      → balance (add_pending ref p s) ≡ (if eqb p.reply n then 1 else 0) + balance s
  unfolding add_pending
  add_pending-balance ref p s =
      let added = put ref p s.pending in
      omega (
        arith,
        drop_reply-balance added.0 (record s { pending = added.1 }),
        waiting-put (is_reply_to n) ref p s.pending,
      )

-- how often an event asks for an answer to a request
abbrev pub asks : {F : Type 0} → ℕ → Event F → ℕ
asks n (command reply text key request ref fresh sending) = if eqb reply n then 1 else 0
asks n shutdown = 0
asks n commands_closed = 0
asks n stream_ended = 0
asks n (tick now reauth writing sending ref) = 0
asks n (stream_error e) = 0
asks n (received message capacity writing) = 0
asks n (processed id timestamp) = 0

module _ (fl : Float) (env : Environment fl.F) {N K P : Type 0} (link : Link fl.F N)
    (server : ServerConfig P) (clients : List (String × EmbeddingBackendConfig))
    (attention : AttentionLayer fl.F) (n : ℕ) where
  open fl use {F}

  refresh-balance :
      (reauth : Result String SessionAuth) (writing : Failure) (s : Live F N K)
      → balance n (refresh fl env link server clients attention reauth writing s).0 ≡ balance n s
  unfolding refresh update_server_state update_server_session_expires_at fail_pending_sends
  refresh-balance (ok auth) (some e) s = refl
  refresh-balance (ok auth) none s = fail_pending_sends-balance n session_refreshed_reconnecting s
  refresh-balance (err e) writing s =
      fail_pending_sends-balance n "subspace session refresh failed" s

  on_tick-balance :
      (now : ℕ) (reauth : Result String SessionAuth) (writing sending : Failure) (ref : String)
      (s : Live F N K)
      → balance n (on_tick fl env link server clients attention now reauth writing sending ref s).0
        ≡ balance n s
  unfolding on_tick update_server_state
  on_tick-balance now reauth writing none ref s = ground (
    arith,
    refresh-balance reauth writing
        (update_server_state fl env link server clients attention "authenticating" s),
  )
  on_tick-balance now reauth writing (some e) ref s = ground (
    arith,
    refresh-balance reauth writing
        (update_server_state fl env link server clients attention "authenticating" s),
  )

  on_command-balance :
      (reply : ℕ) (text : String) (key : Option String) (request : OutboundEmbeddingRequest F)
      (ref fresh : String) (sending : Failure) (s : Live F N K)
      → balance n
          (on_command fl env link server clients attention reply text key request ref fresh sending
            s).0
        ≡ (if eqb reply n then 1 else 0) + balance n s
  unfolding on_command
  on_command-balance reply text key request ref fresh none s =
      add_pending-balance n ref (record { reply = reply; idempotency_key = get_or key fresh })
        (record s {
          frames =
              s.frames
              ++ (post_message link server text (get_or key fresh)
                    (compose_outbound_embeddings fl env text request clients) ref
                  ∷ []);
        })
  on_command-balance reply text key request ref fresh (some error) s =
      drop_reply-balance n (some (record { reply = reply; idempotency_key = get_or key fresh })) s

  answer_failure-balance :
      (p : PendingSend) (error : String) (s : Live F N K)
      → balance n (answer_failure fl env link server clients attention p error s).0
        ≡ (if eqb p.reply n then 1 else 0) + balance n s
  unfolding answer_failure
  answer_failure-balance p error s = add_reply-balance n p.reply (err error) (record s {
    failures =
        s.failures ++ (server_hard_failure_event server "subspace_post_message_failed" error ∷ []);
  })

  answer_token_error-balance :
      (p : PendingSend) (error : String) (writing : Failure) (s : Live F N K)
      → balance n (answer_token_error fl env link server clients attention p error writing s).0
        ≡ (if eqb p.reply n then 1 else 0) + balance n s
  unfolding answer_token_error
  answer_token_error-balance p error none s = answer_failure-balance p error (record s {
    session = clear_session_token s.session;
    saved = some (clear_session_token s.session);
  })
  answer_token_error-balance p error (some e) s =
      drop_reply-balance n (some p) (record s { session = clear_session_token s.session })

  answer-balance :
      (p : PendingSend) (payload : Json N) (writing : Failure) (s : Live F N K)
      → balance n (answer fl env link server clients attention p payload writing s).0
        ≡ (if eqb p.reply n then 1 else 0) + balance n s
  unfolding answer
  answer-balance p payload writing s =
      let more = (if eqb p.reply n then 1 else 0) + balance n s in
      if-balance n (get_or (text_of "status" payload) "" == "ok") _ _ more
        (add_reply-balance n p.reply
          (ok (record {
            server = server.base_url;
            subspace_message_id = message_id_of payload;
            idempotency_key = p.idempotency_key;
          }))
          s)
        (if-balance n (is_token_error (reply_error payload)) _ _ more
          (answer_token_error-balance p (reply_error payload) writing s)
          (answer_failure-balance p (reply_error payload) s))

  on_reply-balance :
      (parsed : Json N) (writing : Failure) (s : Live F N K)
      → balance n (on_reply fl env link server clients attention parsed writing s).0 ≡ balance n s
  unfolding on_reply
  on_reply-balance parsed writing s = elim (Option-cases (text_of "ref" parsed)) [
    | inl h ↦ rw (on_reply, h) refl
    | inr (ref, h) ↦ elim (Option-cases (take ref s.pending).0) [
      | inl k ↦ rw (on_reply, h, k) refl
      | inr (p, k) ↦
          rw (on_reply, h, k)
            (answer-balance p (get_or (get "payload" parsed) (obj end)) writing
                (record s { pending = (take ref s.pending).1 })
              ∙ taken-balance n ref p s k)
    ]
  ]

  enqueue-balance :
      (item : Item F) (capacity : Room) (s : Live F N K)
      → balance n (enqueue fl env link server clients attention item capacity s).0 ≡ balance n s
  unfolding enqueue
  enqueue-balance item room s = refl
  enqueue-balance item full s = refl
  enqueue-balance item gone s = refl

  on_message-balance :
      (parsed : Json N) (capacity : Room) (s : Live F N K)
      → balance n (on_message fl env link server clients attention parsed capacity s).0
        ≡ balance n s
  unfolding on_message accept
  on_message-balance parsed capacity s =
      let item =
        inbound_item link server attention parsed (get_or (get "payload" parsed) (obj end)) in
      let id = item.envelope.message_id in
      let asked = should_enqueue link.clock id item.envelope.timestamp s.runtime in
      if-balance n (item.envelope.author_id == agent_id s.session) _ _ (balance n s) refl (
        if-balance n (is_empty_text id || is_empty_text item.envelope.timestamp) _ _ (balance n s)
          refl
          (if-balance n asked.1 _ _ (balance n s)
            (enqueue-balance item capacity (record s { runtime = asked.0 })) refl))

  on_frame-balance :
      (parsed : Json N) (capacity : Room) (writing : Failure) (s : Live F N K)
      → balance n (on_frame fl env link server clients attention parsed capacity writing s).0
        ≡ balance n s
  unfolding on_frame
  on_frame-balance parsed capacity writing s =
      let event = get_or (text_of "event" parsed) "" in
      if-balance n (has_member "topic" "phoenix" parsed && has_member "event" "heartbeat" parsed) _
        _ (balance n s) refl
        (if-balance n (not (has_member "topic" "firehose" parsed)) _ _ (balance n s) refl (
          if-balance n (event == "new_message" || event == "replay_message") _ _ (balance n s)
            (on_message-balance parsed capacity s)
            (if-balance n (event == "phx_reply") _ _ (balance n s)
              (on_reply-balance parsed writing s) refl)))

  on_text-balance :
      (raw : String) (capacity : Room) (writing : Failure) (s : Live F N K)
      → balance n (on_text fl env link server clients attention raw capacity writing s).0
        ≡ balance n s
  unfolding on_text
  on_text-balance raw capacity writing s = elim (Result-cases (link.parse raw)) [
    | inl (parsed, h) ↦ rw (on_text, h) (on_frame-balance parsed capacity writing s)
    | inr (e, h) ↦ rw (on_text, h) refl
  ]

  on_received-balance :
      (message : Message) (capacity : Room) (writing : Failure) (s : Live F N K)
      → balance n (on_received fl env link server clients attention message capacity writing s).0
        ≡ balance n s
  unfolding on_received
  on_received-balance message capacity writing s = elim (Result-cases (ws_text message)) [
    | inl (ignore, h) ↦ rw (on_received, h) refl
    | inl (closed code reason, h) ↦ rw (on_received, h) refl
    | inl (body raw, h) ↦ rw (on_received, h) (on_text-balance raw capacity writing s)
    | inr (e, h) ↦ rw (on_received, h) refl
  ]

  pub step-balance :
      (e : Event F) (s : Live F N K)
      → balance n (step fl env link server clients attention e s).0 ≡ asks n e + balance n s
  unfolding step
  step-balance shutdown s = omega arith
  step-balance commands_closed s = omega arith
  step-balance stream_ended s = omega arith
  step-balance (tick now reauth writing sending ref) s =
      omega (arith, on_tick-balance now reauth writing sending ref s)
  step-balance (command reply text key request ref fresh sending) s =
      on_command-balance reply text key request ref fresh sending s
  step-balance (stream_error e) s = omega arith
  step-balance (received message capacity writing) s =
      omega (arith, on_received-balance message capacity writing s)
  step-balance (processed id timestamp) s = omega arith
