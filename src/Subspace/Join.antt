-- ===== src/Subspace/Join.antt =====
-- src/subspace/client.rs, `connect_once`: the connection from its start.
use subspace_daemon.Base.{
  Bool, List, String, [], and_then, append_text, err, false, get_or, if◌then◌else◌, none, ok, some,
  true, ◌&&◌, ◌++◌, ◌==◌, ◌∷◌,
}
use subspace_daemon.Base.Json.{Json, str, obj, end, field, get, as_str}
use subspace_daemon.Attention.Float.{Float}
use subspace_daemon.Attention.Plugin.{EmbeddingBackendConfig}
use subspace_daemon.Attention.Layer.{AttentionLayer, Environment}
use subspace_daemon.Config.Stored.{ServerConfig}
use subspace_daemon.Runtime.Store.{clear_reconnect_storm}
use subspace_daemon.Subspace.Frames.{
  Message, body, ignore, closed, ws_text, closed_text, text_of, has_member,
}
use subspace_daemon.Subspace.Payloads.{Link, is_token_error, response_member}
use subspace_daemon.Subspace.Session.{ActiveSession, agent_id, session_token, clear_session_token}
use subspace_daemon.Subspace.Live.{
  Live, Failure, Event, Ended, goes_on, stops, bails, persisted, update_server_state,
  update_server_session_expires_at, live_loop,
}

-- What the `select!` of the join gives: the shutdown, or an item of the socket.
pub data Incoming : Type 0 where
  shutdown ended : Incoming
  failed : String → Incoming
  received : Message → Incoming

-- How the wait for the join ends; it goes on where the given items are over.
pub data Joined : Type 0 where
  waits stopped joined : Joined
  fails refused : String → Joined

-- What the world gives to a connection: why it is not made or something not written, a new name,
-- the items of the join, and the events of the loop.
pub record World (F : Type 0) : Type 0 where
  pub connecting : Failure
  pub join_ref : String
  pub sending : Failure
  pub incoming : List Incoming
  pub writing : Failure
  pub flushing : Failure
  pub events : List (Event F)

unfoldable pub join_frame : {N K : Type 0} → String → ActiveSession K → Json N
unfolding agent_id session_token
join_frame join_ref session = obj (
    field "topic" (str "firehose") (
      field "event" (str "phx_join") (
        field "payload"
          (obj (
            field "agent_id" (str (agent_id session))
              (field "session_token" (str (get_or (session_token session) "")) end)))
          (field "ref" (str join_ref) end))))

module _ {F N : Type 0} (link : Link F N) where
  -- the reply to the join
  unfoldable pub on_join_reply : Json N → Joined
  unfolding text_of get as_str
  on_join_reply parsed =
      let payload = get_or (get "payload" parsed) (obj end) in
      if get_or (text_of "status" payload) "" == "ok"
      then joined
      else refused (get_or (and_then (response_member "error" payload) as_str) "join_failed")

  unfoldable pub wait_join : String → List Incoming → Joined
  unfolding ws_text closed_text has_member on_join_reply
  wait_join join_ref [] = waits
  wait_join join_ref (shutdown ∷ incoming) = stopped
  wait_join join_ref (ended ∷ incoming) = fails "subspace closed during join"
  wait_join join_ref (failed e ∷ incoming) = fails e
  wait_join join_ref (received message ∷ incoming) =
      let later = wait_join join_ref incoming in
      elim (ws_text message) [
        | err e ↦ fails e
        | ok ignore ↦ later
        | ok (closed code reason) ↦
            fails (closed_text link.quote "subspace websocket closed during join" code reason)
        | ok (body raw) ↦ elim (link.parse raw) [
          | err e ↦ fails e
          | ok parsed ↦
              if has_member "event" "phx_reply" parsed && has_member "ref" join_ref parsed
              then on_join_reply parsed
              else later
        ]
      ]

module _ (fl : Float) (env : Environment fl.F) {N K P : Type 0} (link : Link fl.F N)
    (server : ServerConfig P) (clients : List (String × EmbeddingBackendConfig))
    (attention : AttentionLayer fl.F) where
  open fl use {F}

  -- the state after the join, with the runtime store written or not
  unfoldable pub on_joined : Live F N K → Live F N K
  unfolding update_server_state update_server_session_expires_at clear_reconnect_storm
  on_joined s =
      let t =
        update_server_session_expires_at fl env link server clients attention
          (update_server_state fl env link server clients attention "live" s) in
      record t { runtime = clear_reconnect_storm t.runtime }

  -- a join that is refused
  unfoldable pub on_join_refused : String → Failure → Live F N K → Live F N K × Ended
  unfolding clear_session_token
  on_join_refused e writing s =
      let failure = bails (append_text "subspace join failed: " e) in
      if is_token_error e
      then persisted fl env link server clients attention writing (λ t. (t, failure))
          (record s { session = clear_session_token s.session })
      else (s, failure)

  -- The connection, and whether it has been live.
  unfoldable pub connect_once : World F → Live F N K → (Live F N K × Ended) × Bool
  unfolding update_server_state join_frame wait_join on_join_refused on_joined live_loop
  connect_once world s =
      let t = update_server_state fl env link server clients attention "connecting" s in
      let sent = record t { frames = t.frames ++ (join_frame world.join_ref t.session ∷ []) } in
      elim world.connecting [
        | some e ↦ ((t, bails "subspace websocket connect failed"), false)
        | none ↦ elim world.sending [
          | some e ↦ ((t, bails e), false)
          | none ↦ elim (wait_join link world.join_ref world.incoming) [
            | waits ↦ ((sent, goes_on), false)
            | stopped ↦ ((sent, stops), false)
            | fails e ↦ ((sent, bails e), false)
            | refused e ↦ (on_join_refused e world.writing sent, false)
            | joined ↦ elim world.flushing [
              | some e ↦ ((on_joined sent, bails e), true)
              | none ↦ (
                live_loop fl env link server clients attention world.events (on_joined sent),
                true,
              )
            ]
          ]
        ]
      ]
