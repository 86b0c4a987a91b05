-- ===== src/Gateway/Live.antt =====
-- src/gateway/client.rs, `connect_once`: the loop of a connection that is live, and the connection
-- from its start. A request is named by a number.
pub mod Answered
use subspace_daemon.Base.{
  Bool, List, Option, Result, String, [], append_text, err, false, get_or, if◌then◌else◌,
  is_empty_text, is_ok, map, none, ok, option_map, some, ℕ, ◌&&◌, ◌++◌, ◌==◌, ◌∷◌,
}
use subspace_daemon.Base.Json.{Json}
use subspace_daemon.Config.Stored.{GatewayConfig}
use subspace_daemon.Pending.{take, put}
use subspace_daemon.Gateway.Protocol.{chat, RequestFrame, GatewayError, ResponseFrame, EventFrame}
use subspace_daemon.Gateway.Connect.{
  DisconnectReason, restart, pairing_required, auth_failed, transport, Device, Host, gateway_text,
  Incoming, shutdown, ended, failed, received, Waited, waits, stopped, fails, got, Opening,
  wait_challenge, wait_response, connect_auth, connect_request, Opened, on_response,
}
use subspace_daemon.Subspace.Frames.{Message}

-- `reply` is what `oneshot_map_ok` passes the answer on to.
pub record PendingRequest : Type 0 where
  pub method : String
  pub reply : ℕ

pub record Connection (N : Type 0) : Type 0 where
  pub opening : Opening N
  pub pending : List (String × PendingRequest)
  pub replies : List (ℕ × Result String (Unit {0}))

-- A round of the loop: an item of the socket or the shutdown, or a command `SendChat` with its
-- reply, its session, its message, its key, a new UUID, and why the frame is not written.
pub data Event : Type 0 where
  item : Incoming → Event
  commands_closed : Event
  command : ℕ → String → String → String → String → Option String → Event

-- How a round ends.
pub data Ended : Type 0 where
  goes_on : Ended
  ends : DisconnectReason → Ended

-- The answers to the pending requests when their senders are dropped.
abbrev pub dropped : List (String × PendingRequest) → List (ℕ × Result String (Unit {0}))
dropped [] = []
dropped ((id, p) ∷ pending) = (p.reply, err "gateway request dropped") ∷ dropped pending

module _ {N : Type 0} where
  unfoldable pub add_reply : ℕ → Result String (Unit {0}) → Connection N → Connection N
  add_reply reply result s = record s { replies = s.replies ++ ((reply, result) ∷ []) }

  unfoldable pub drop_request : Option PendingRequest → Connection N → Connection N
  unfolding add_reply
  drop_request none s = s
  drop_request (some p) s = add_reply p.reply (err "gateway request dropped") s

  -- the end of the loop, where all pending senders are dropped
  unfoldable pub close_connection : Connection N → Connection N
  close_connection s = record s { pending = []; replies = s.replies ++ dropped s.pending }

  unfoldable pub add_request : String → PendingRequest → Connection N → Connection N
  unfolding put drop_request
  add_request id p s =
      let added = put id p s.pending in drop_request added.0 (record s { pending = added.1 })

  unfoldable pub chat_request : String → String → String → String → RequestFrame N
  chat_request session_key message key request_id = record {
    frame_type = "req";
    id = request_id;
    method = "chat.send";
    params = chat session_key message key;
  }

  abbrev pub write_request : RequestFrame N → Connection N → Connection N
  write_request request s = record s {
    opening = record s.opening { requests = s.opening.requests ++ (request ∷ []) };
  }

  -- a command
  unfoldable pub send_chat :
      ℕ → String → String → String → String → Option String → Connection N → Connection N × Ended
  unfolding add_reply add_request chat_request
  send_chat reply session_key message key request_id (some e) s =
      (add_reply reply (err (append_text "gateway transport unavailable: " e)) s, ends transport)
  send_chat reply session_key message key request_id none s = (
    add_request request_id (record { method = "chat.send"; reply = reply })
        (write_request (chat_request session_key message key request_id) s),
    goes_on,
  )

  -- the answer to a pending request
  unfoldable pub answer_of : PendingRequest → ResponseFrame N → Result String (Unit {0})
  answer_of p response =
      if response.is_ok
      then ok tt
      else err
          (get_or (option_map (λ e. e.message) response.error) (append_text p.method " failed"))

  unfoldable pub on_response_frame : ResponseFrame N → Connection N → Connection N
  unfolding take answer_of add_reply
  on_response_frame response s =
      let taken = take response.id s.pending in
      elim taken.0 [
        | none ↦ s
        | some p ↦ add_reply p.reply (answer_of p response) (record s { pending = taken.1 })
      ]

module _ {N : Type 0} (host : Host N) where
  abbrev pub is_tick : String → Bool
  is_tick raw =
      get_or (option_map (λ e. e.frame_type == "event" && e.event == "tick") (host.read_event raw))
        false

  unfoldable pub on_text : String → Connection N → Connection N
  unfolding on_response_frame
  on_text raw s =
      if is_empty_text raw
      then s
      else if is_tick raw
      then s
      else elim (host.read_response raw) [ none ↦ s | some response ↦ on_response_frame response s ]

  unfoldable pub step : Event → Connection N → Connection N × Ended
  unfolding send_chat gateway_text on_text
  step (item shutdown) s = (s, ends restart)
  step (item ended) s = (s, ends transport)
  step (item (failed e)) s = (s, ends transport)
  step (item (received message)) s = elim (gateway_text message) [
    | err e ↦ (s, ends transport)
    | ok raw ↦ (on_text raw s, goes_on)
  ]
  step commands_closed s = (s, ends restart)
  step (command reply session_key message key request_id sending) s =
      send_chat reply session_key message key request_id sending s

  abbrev pub then_run :
      (Connection N → Connection N × Ended) → Connection N × Ended → Connection N × Ended
  then_run rest (s, goes_on) = rest s
  then_run rest (s, ends reason) = (close_connection s, ends reason)

  -- The loop: it waits where the given events are over.
  unfoldable pub live_loop : List Event → Connection N → Connection N × Ended
  unfolding step close_connection
  live_loop [] s = (s, goes_on)
  live_loop (e ∷ es) s = then_run (live_loop es) (step e s)

-- What the world gives to a connection: why it is not made or a frame not written, new names, the
-- time, the items of its opening, and the events of its loop.
pub record World : Type 0 where
  pub connecting : Option String
  pub incoming : List Incoming
  pub connect_id : String
  pub signed_at : ℕ
  pub sending : Option String
  pub writable : Bool
  pub stored_at : ℕ
  pub events : List Event

module _ {N : Type 0} (host : Host N) (config : GatewayConfig) (device : Device) where
  -- how a connection ends; it goes on where there is nothing
  abbrev pub End : Type 0
  End = Option (Result String DisconnectReason)

  abbrev pub reason_of : Ended → End
  reason_of goes_on = none
  reason_of (ends reason) = some (ok reason)

  -- the connection from the response on
  unfoldable pub run_live :
      World → List Incoming → Opening N × Opened host config device → Connection N × End
  unfolding live_loop
  run_live world incoming (opening, some end) =
      (record { opening = opening; pending = []; replies = [] }, some end)
  run_live world incoming (opening, none) =
      let result =
        live_loop host (map item incoming ++ world.events)
          (record { opening = opening; pending = []; replies = [] }) in
      (result.0, reason_of result.1)

  -- the connection from the challenge on
  unfoldable pub answer_challenge : World → String → List Incoming → Opening N → Connection N × End
  unfolding connect_auth connect_request wait_response on_response run_live
  answer_challenge world nonce incoming s =
      let request =
        connect_request host config device world.connect_id world.signed_at nonce
          (connect_auth host config device s.path) in
      let sent = record s { requests = s.requests ++ (request ∷ []) } in
      let over : Opening N → End → Connection N × End =
        λ t end. (record { opening = t; pending = []; replies = [] }, end) in
      elim world.sending [
        | some e ↦ over s (some (err e))
        | none ↦ elim (wait_response host world.connect_id incoming) [
          | waits ↦ over sent none
          | stopped ↦ over sent (some (ok restart))
          | fails e ↦ over sent (some (err e))
          | got response rest ↦
              run_live world rest
                (on_response host config device world.writable world.stored_at response sent)
        ]
      ]

  unfoldable pub connect_once : World → Opening N → Connection N × End
  unfolding wait_challenge answer_challenge
  connect_once world s =
      let over : End → Connection N × End =
        λ end. (record { opening = s; pending = []; replies = [] }, end) in
      elim world.connecting [
        | some e ↦ over (some (err "gateway websocket connect failed"))
        | none ↦ elim (wait_challenge host world.incoming) [
          | waits ↦ over none
          | stopped ↦ over (some (ok restart))
          | fails e ↦ over (some (err e))
          | got nonce rest ↦ answer_challenge world nonce rest s
        ]
      ]
