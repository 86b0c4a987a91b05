-- ===== src/Gateway/Live/Answered.antt =====
-- Every request that a connection of the gateway takes is answered once, when the connection has
-- ended at the latest.
use subspace_daemon.Base.{
  Bool, List, Option, Option-cases, Result, Result-cases, String, [], ap, append_text, arith, eqb,
  err, if◌then◌else◌, inl, inr, none, refl, some, ℕ, ◌+◌, ◌∷◌, ◌≡◌, ◌≢◌,
}
use subspace_daemon.Pending.{
  take, put, one, waiting, waiting-put, waiting_taken, answered, answered-append,
}
use subspace_daemon.Gateway.Protocol.{ResponseFrame}
use subspace_daemon.Gateway.Connect.{Host, gateway_text, shutdown, ended, failed, received}
use subspace_daemon.Gateway.Live.{
  PendingRequest, Connection, Event, item, commands_closed, command, Ended, goes_on, ends, dropped,
  add_reply, drop_request, close_connection, add_request, send_chat, answer_of, on_response_frame,
  on_text, step, then_run, live_loop, write_request, chat_request,
}

abbrev is_reply_to : ℕ → PendingRequest → Bool
is_reply_to n p = eqb p.reply n

answered-dropped :
    (n : ℕ) (pending : List (String × PendingRequest))
    → answered n (dropped pending) ≡ waiting (is_reply_to n) pending
answered-dropped n [] = refl
answered-dropped n ((id, p) ∷ pending) = omega (arith, answered-dropped n pending)

-- how often an event asks for an answer to a request
abbrev pub asks : ℕ → Event → ℕ
asks n (command reply session_key message key request_id sending) = if eqb reply n then 1 else 0
asks n commands_closed = 0
asks n (item i) = 0

module _ {N : Type 0} (n : ℕ) where
  -- how often a request is answered or waits
  abbrev balance : Connection N → ℕ
  balance s = answered n s.replies + waiting (is_reply_to n) s.pending

  add_reply-balance :
      (reply : ℕ) (result : Result String (Unit {0})) (s : Connection N)
      → balance (add_reply reply result s) ≡ (if eqb reply n then 1 else 0) + balance s
  unfolding add_reply
  add_reply-balance reply result s =
      omega (arith, answered-append n s.replies ((reply, result) ∷ []))

  drop_request-balance :
      (p : Option PendingRequest) (s : Connection N)
      → balance (drop_request p s) ≡ one (is_reply_to n) p + balance s
  unfolding drop_request
  drop_request-balance none s = omega arith
  drop_request-balance (some p) s = add_reply-balance p.reply (err "gateway request dropped") s

  close_connection-balance : (s : Connection N) → balance (close_connection s) ≡ balance s
  unfolding close_connection
  close_connection-balance s =
      omega (arith, answered-append n s.replies (dropped s.pending), answered-dropped n s.pending)

  add_request-balance :
      (id : String) (p : PendingRequest) (s : Connection N)
      → balance (add_request id p s) ≡ (if eqb p.reply n then 1 else 0) + balance s
  unfolding add_request
  add_request-balance id p s =
      let added = put id p s.pending in
      omega (
        arith,
        drop_request-balance added.0 (record s { pending = added.1 }),
        waiting-put (is_reply_to n) id p s.pending,
      )

  send_chat-balance :
      (reply : ℕ) (session_key message key id : String) (sending : Option String) (s : Connection N)
      → balance (send_chat reply session_key message key id sending s).0
        ≡ (if eqb reply n then 1 else 0) + balance s
  unfolding send_chat
  send_chat-balance reply session_key message key id (some e) s =
      add_reply-balance reply (err (append_text "gateway transport unavailable: " e)) s
  send_chat-balance reply session_key message key id none s =
      add_request-balance id (record { method = "chat.send"; reply = reply })
        (write_request (chat_request session_key message key id) s)

  on_response_frame-balance :
      (response : ResponseFrame N) (s : Connection N)
      → balance (on_response_frame response s) ≡ balance s
  unfolding on_response_frame
  on_response_frame-balance response s = elim (Option-cases (take response.id s.pending).0) [
    | inl h ↦ rw (on_response_frame, h) refl
    | inr (p, h) ↦
        rw (on_response_frame, h)
          (omega (
            arith,
            add_reply-balance p.reply (answer_of p response)
                (record s { pending = (take response.id s.pending).1 }),
            waiting_taken (is_reply_to n) response.id p s.pending h,
          ))
  ]

module _ {N : Type 0} (host : Host N) (n : ℕ) where
  on_text-balance : (raw : String) (s : Connection N) → balance n (on_text host raw s) ≡ balance n s
  unfolding on_text
  on_text-balance raw s = elim (Option-cases (host.read_response raw)) [
    | inl h ↦ rw (on_text, h) (ground arith)
    | inr (response, h) ↦ rw (on_text, h) (ground (arith, on_response_frame-balance n response s))
  ]

  step-balance :
      (e : Event) (s : Connection N) → balance n (step host e s).0 ≡ asks n e + balance n s
  unfolding step
  step-balance (item shutdown) s = omega arith
  step-balance (item ended) s = omega arith
  step-balance (item (failed e)) s = omega arith
  step-balance (item (received message)) s = elim (Result-cases (gateway_text message)) [
    | inl (raw, h) ↦ rw (step, h) (omega (arith, on_text-balance raw s))
    | inr (e, h) ↦ rw (step, h) (omega arith)
  ]
  step-balance commands_closed s = omega arith
  step-balance (command reply session_key message key id sending) s =
      send_chat-balance n reply session_key message key id sending s

  -- what is left to do after an event
  abbrev pub asked_until : Ended → ℕ → ℕ
  asked_until goes_on m = m
  asked_until (ends reason) m = 0

  -- how often an answer to the request is asked for, by the events until the loop ends
  unfoldable pub asked : List Event → Connection N → ℕ
  asked [] s = 0
  asked (e ∷ es) s = let next = step host e s in asks n e + asked_until next.1 (asked es next.0)

  then_run-balance :
      (rest : Connection N → Connection N × Ended) (next : Connection N × Ended) (m : ℕ)
      → balance n (rest next.0).0 ≡ m + balance n next.0
      → balance n (then_run host rest next).0 ≡ asked_until next.1 m + balance n next.0
  then_run-balance rest (s, goes_on) m h = h
  then_run-balance rest (s, ends reason) m h = omega (arith, close_connection-balance n s)

  live_loop-balance :
      (es : List Event) (s : Connection N)
      → balance n (live_loop host es s).0 ≡ asked es s + balance n s
  unfolding live_loop asked
  live_loop-balance [] s = omega arith
  live_loop-balance (e ∷ es) s =
      let next = step host e s in
      omega (
        arith,
        then_run-balance (live_loop host es) next (asked es next.0) (live_loop-balance es next.0),
        step-balance e s,
      )

  then_run-IsClosed :
      (rest : Connection N → Connection N × Ended) (next : Connection N × Ended)
      → ((rest next.0).1 ≢ goes_on → (rest next.0).0.pending ≡ [])
      → (then_run host rest next).1 ≢ goes_on
      → (then_run host rest next).0.pending ≡ []
  unfolding close_connection
  then_run-IsClosed rest (s, goes_on) h over = h over
  then_run-IsClosed rest (s, ends reason) h over = refl

  live_loop-IsClosed :
      (es : List Event) (s : Connection N)
      → (live_loop host es s).1 ≢ goes_on
      → (live_loop host es s).0.pending ≡ []
  unfolding live_loop
  live_loop-IsClosed [] s over = absurd (over refl)
  live_loop-IsClosed (e ∷ es) s over =
      then_run-IsClosed (live_loop host es) (step host e s)
        (live_loop-IsClosed es (step host e s).0) over

  -- A live connection starts with no pending request and has answered none. When its loop has
  -- ended, whatever the reason, each request is answered as often as the loop took a command for
  -- it: the pending requests are answered too, and none was answered twice.
  pub requests_answered :
      (es : List Event) (s : Connection N)
      → s.pending ≡ []
      → s.replies ≡ []
      → (live_loop host es s).1 ≢ goes_on
      → answered n (live_loop host es s).0.replies ≡ asked es s
  requests_answered es s none_pending none_answered over = omega (
    arith,
    live_loop-balance es s,
    ap (waiting (is_reply_to n)) none_pending,
    ap (answered n) none_answered,
    ap (waiting (is_reply_to n)) (live_loop-IsClosed es s over),
  )
