-- ===== src/Subspace/Live/Effect.antt =====
-- What a round of a live connection does to the runtime store and to the wake queue.
use subspace_daemon.Base.{
  Bool, Bool-cases, List, Option, Option-cases, Result, Result-cases, String, [], any, err, false,
  get_or, if◌then◌else◌, inl, inr, is_empty_text, none, not, ok, refl, some, true, ℕ, ◌&&◌, ◌++◌,
  ◌==◌, ◌||◌, ◌∷◌, ◌≡◌, ◌≢◌,
}
use subspace_daemon.Base.Json.{Json, obj, end, get}
use subspace_daemon.Attention.Float.{Float}
use subspace_daemon.Attention.Plugin.{EmbeddingBackendConfig}
use subspace_daemon.Attention.Layer.{AttentionLayer, Environment}
use subspace_daemon.Attention.Outbound.{OutboundEmbeddingRequest}
use subspace_daemon.Config.Stored.{ServerConfig}
use subspace_daemon.Pending.{take, put}
use subspace_daemon.Runtime.Store.{Rfc3339, should_enqueue}
use subspace_daemon.Runtime.Store.Dedupe.{Call, enqueues, processes, run, processed_count, fails_id}
use subspace_daemon.Subspace.Auth.{SessionAuth}
use subspace_daemon.Subspace.Frames.{Message, body, ignore, closed, ws_text, text_of, has_member}
use subspace_daemon.Subspace.Payloads.{Link, is_token_error, reply_error, inbound_item}
use subspace_daemon.Subspace.Session.{agent_id}
use subspace_daemon.Subspace.Live.{
  PendingSend, Live, Room, room, full, gone, Failure, Event, shutdown, commands_closed,
  stream_ended, tick, command, stream_error, received, processed, Ended, goes_on, add_reply,
  fail_pending_sends, drop_reply, refresh, on_tick, add_pending, on_command, enqueue, accept,
  on_message, answer_failure, answer_token_error, answer, on_reply, on_frame, on_text, on_received,
  step, update_server_state, update_server_session_expires_at, session_expires_soon,
  session_expires_at,
}
use subspace_daemon.Wake.Process.{Item}

-- how many messages an event reports as processed
abbrev pub reports : {F : Type 0} → Event F → ℕ
reports (processed id timestamp) = 1
reports shutdown = 0
reports commands_closed = 0
reports stream_ended = 0
reports (tick now reauth writing sending ref) = 0
reports (command reply text key request ref fresh sending) = 0
reports (stream_error e) = 0
reports (received message capacity writing) = 0

-- What a round does to the runtime store and to the wake queue, where `m` is how many messages
-- were reported as processed.
pub data Effect {F N K : Type 0} (clock : Rfc3339) (m : ℕ) (s : Live F N K)
    (next : Live F N K × Ended) : Type 0 where
  ran :
      (cs : List Call)
      → ((id : String) → any (fails_id id) cs ≡ false)
      → processed_count cs ≡ m
      → next.0.runtime ≡ run clock s.runtime cs
      → next.0.queue ≡ s.queue
      → Effect clock m s next
  queued :
      (item : Item F)
      → m ≡ 0
      → (should_enqueue clock item.envelope.message_id item.envelope.timestamp s.runtime).1 ≡ true
      → next.0.runtime
        ≡ (should_enqueue clock item.envelope.message_id item.envelope.timestamp s.runtime).0
      → next.0.queue ≡ s.queue ++ (item ∷ [])
      → Effect clock m s next
  ended : next.1 ≢ goes_on → next.0.queue ≡ s.queue → Effect clock m s next

module _ {F N K : Type 0} (clock : Rfc3339) where
  abbrev kept :
      {s : Live F N K} {next : Live F N K × Ended}
      → next.0.runtime ≡ s.runtime
      → next.0.queue ≡ s.queue
      → Effect clock 0 s next
  unfolding run processed_count
  kept r q = ran [] (λ id. refl) refl r q

  if-Effect :
      (b : Bool) (s : Live F N K) (x y : Live F N K × Ended)
      → Effect clock 0 s x
      → Effect clock 0 s y
      → Effect clock 0 s (if b then x else y)
  if-Effect true s x y hx hy = hx
  if-Effect false s x y hx hy = hy

abbrev the_pending : ℕ → Option String → String → PendingSend
the_pending reply key fresh = record { reply = reply; idempotency_key = get_or key fresh }

module _ (fl : Float) (env : Environment fl.F) {N K P : Type 0} (link : Link fl.F N)
    (server : ServerConfig P) (clients : List (String × EmbeddingBackendConfig))
    (attention : AttentionLayer fl.F) where
  open fl use {F}

  refresh-Effect :
      (reauth : Result String SessionAuth) (writing : Failure) (s : Live F N K)
      → Effect link.clock 0 s (
          refresh fl env link server clients attention reauth writing
            (update_server_state fl env link server clients attention "authenticating" s))
  unfolding refresh update_server_state update_server_session_expires_at fail_pending_sends
  refresh-Effect (ok auth) none s = kept link.clock refl refl
  refresh-Effect (ok auth) (some e) s = kept link.clock refl refl
  refresh-Effect (err e) writing s = kept link.clock refl refl

  on_tick-Effect :
      (now : ℕ) (reauth : Result String SessionAuth) (writing sending : Failure) (ref : String)
      (s : Live F N K)
      → Effect link.clock 0 s
          (on_tick fl env link server clients attention now reauth writing sending ref s)
  unfolding on_tick
  on_tick-Effect now reauth writing none ref s =
      if-Effect link.clock (session_expires_soon link.clock now (session_expires_at s.session)) s _
        _ (refresh-Effect reauth writing s) (kept link.clock refl refl)
  on_tick-Effect now reauth writing (some e) ref s =
      if-Effect link.clock (session_expires_soon link.clock now (session_expires_at s.session)) s _
        _ (refresh-Effect reauth writing s) (kept link.clock refl refl)

  on_command-Effect :
      (reply : ℕ) (text : String) (key : Option String) (request : OutboundEmbeddingRequest F)
      (ref fresh : String) (sending : Failure) (s : Live F N K)
      → Effect link.clock 0 s (
          on_command fl env link server clients attention reply text key request ref fresh sending
            s)
  unfolding on_command add_pending drop_reply add_reply
  on_command-Effect reply text key request ref fresh none s =
      elim (Option-cases (put ref (the_pending reply key fresh) s.pending).0) [
        | inl h ↦ rw (on_command, add_pending, h) (kept link.clock refl refl)
        | inr (p, h) ↦ rw (on_command, add_pending, h) (kept link.clock refl refl)
      ]
  on_command-Effect reply text key request ref fresh (some e) s = kept link.clock refl refl

  accepted :
      (item : Item F) (capacity : Room) (s : Live F N K)
      → (should_enqueue link.clock item.envelope.message_id item.envelope.timestamp s.runtime).1
        ≡ true
      → Effect link.clock 0 s (accept fl env link server clients attention item capacity s)
  unfolding accept enqueue
  accepted item room s h = rw (accept, h) (queued item refl h refl refl)
  accepted item full s h = rw (accept, h) (ended (λ q. cc q) refl)
  accepted item gone s h = rw (accept, h) (ended (λ q. cc q) refl)

  accept-Effect :
      (item : Item F) (capacity : Room) (s : Live F N K)
      → Effect link.clock 0 s (accept fl env link server clients attention item capacity s)
  unfolding accept enqueue run processed_count
  accept-Effect item capacity s =
      let id = item.envelope.message_id in
      let timestamp = item.envelope.timestamp in
      elim (Bool-cases (should_enqueue link.clock id timestamp s.runtime).1) [
        | inr h ↦ rw (accept, h) (ran (enqueues id timestamp ∷ []) (λ id. refl) refl refl refl)
        | inl h ↦ accepted item capacity s h
      ]

  on_message-Effect :
      (parsed : Json N) (capacity : Room) (s : Live F N K)
      → Effect link.clock 0 s (on_message fl env link server clients attention parsed capacity s)
  unfolding on_message
  on_message-Effect parsed capacity s =
      let item =
        inbound_item link server attention parsed (get_or (get "payload" parsed) (obj end)) in
      let id = item.envelope.message_id in
      if-Effect link.clock (item.envelope.author_id == agent_id s.session) s _ _
        (kept link.clock refl refl)
        (if-Effect link.clock (is_empty_text id || is_empty_text item.envelope.timestamp) s _ _
          (kept link.clock refl refl) (accept-Effect item capacity s))

  answer_token_error-Effect :
      (p : PendingSend) (error : String) (writing : Failure) (s t : Live F N K)
      → t.runtime ≡ s.runtime
      → t.queue ≡ s.queue
      → Effect link.clock 0 s
          (answer_token_error fl env link server clients attention p error writing t)
  unfolding answer_token_error answer_failure drop_reply add_reply
  answer_token_error-Effect p error none s t r q = kept link.clock r q
  answer_token_error-Effect p error (some e) s t r q = kept link.clock r q

  answer-Effect :
      (p : PendingSend) (payload : Json N) (writing : Failure) (s t : Live F N K)
      → t.runtime ≡ s.runtime
      → t.queue ≡ s.queue
      → Effect link.clock 0 s (answer fl env link server clients attention p payload writing t)
  unfolding answer answer_failure add_reply
  answer-Effect p payload writing s t r q =
      if-Effect link.clock (get_or (text_of "status" payload) "" == "ok") s _ _
        (kept link.clock r q)
        (if-Effect link.clock (is_token_error (reply_error payload)) s _ _
          (answer_token_error-Effect p (reply_error payload) writing s t r q) (kept link.clock r q))

  on_reply-Effect :
      (parsed : Json N) (writing : Failure) (s : Live F N K)
      → Effect link.clock 0 s (on_reply fl env link server clients attention parsed writing s)
  unfolding on_reply
  on_reply-Effect parsed writing s = elim (Option-cases (text_of "ref" parsed)) [
    | inl h ↦ rw (on_reply, h) (kept link.clock refl refl)
    | inr (ref, h) ↦ elim (Option-cases (take ref s.pending).0) [
      | inl k ↦ rw (on_reply, h, k) (kept link.clock refl refl)
      | inr (p, k) ↦
          rw (on_reply, h, k)
            (answer-Effect p (get_or (get "payload" parsed) (obj end)) writing s
              (record s { pending = (take ref s.pending).1 }) refl refl)
    ]
  ]

  on_frame-Effect :
      (parsed : Json N) (capacity : Room) (writing : Failure) (s : Live F N K)
      → Effect link.clock 0 s
          (on_frame fl env link server clients attention parsed capacity writing s)
  unfolding on_frame
  on_frame-Effect parsed capacity writing s =
      let event = get_or (text_of "event" parsed) "" in
      let clock = link.clock in
      if-Effect clock (has_member "topic" "phoenix" parsed && has_member "event" "heartbeat" parsed)
        s _ _ (kept clock refl refl)
        (if-Effect clock (not (has_member "topic" "firehose" parsed)) s _ _ (kept clock refl refl) (
          if-Effect clock (event == "new_message" || event == "replay_message") s _ _
            (on_message-Effect parsed capacity s)
            (if-Effect clock (event == "phx_reply") s _ _ (on_reply-Effect parsed writing s)
              (kept clock refl refl))))

  on_text-Effect :
      (raw : String) (capacity : Room) (writing : Failure) (s : Live F N K)
      → Effect link.clock 0 s (on_text fl env link server clients attention raw capacity writing s)
  unfolding on_text
  on_text-Effect raw capacity writing s = elim (Result-cases (link.parse raw)) [
    | inl (parsed, h) ↦ rw (on_text, h) (on_frame-Effect parsed capacity writing s)
    | inr (e, h) ↦ rw (on_text, h) (kept link.clock refl refl)
  ]

  on_received-Effect :
      (message : Message) (capacity : Room) (writing : Failure) (s : Live F N K)
      → Effect link.clock 0 s
          (on_received fl env link server clients attention message capacity writing s)
  unfolding on_received
  on_received-Effect message capacity writing s = elim (Result-cases (ws_text message)) [
    | inl (ignore, h) ↦ rw (on_received, h) (kept link.clock refl refl)
    | inl (closed code reason, h) ↦ rw (on_received, h) (kept link.clock refl refl)
    | inl (body raw, h) ↦ rw (on_received, h) (on_text-Effect raw capacity writing s)
    | inr (e, h) ↦ rw (on_received, h) (kept link.clock refl refl)
  ]

  pub step-Effect :
      (e : Event F) (s : Live F N K)
      → Effect link.clock (reports e) s (step fl env link server clients attention e s)
  unfolding step run processed_count
  step-Effect shutdown s = kept link.clock refl refl
  step-Effect commands_closed s = kept link.clock refl refl
  step-Effect stream_ended s = kept link.clock refl refl
  step-Effect (tick now reauth writing sending ref) s =
      on_tick-Effect now reauth writing sending ref s
  step-Effect (command reply text key request ref fresh sending) s =
      on_command-Effect reply text key request ref fresh sending s
  step-Effect (stream_error e) s = kept link.clock refl refl
  step-Effect (received message capacity writing) s = on_received-Effect message capacity writing s
  step-Effect (processed id timestamp) s =
      ran (processes id timestamp ∷ []) (λ id. refl) refl refl refl
