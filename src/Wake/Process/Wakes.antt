-- ===== src/Wake/Process/Wakes.antt =====
-- Which wakes one turn of `process_wake_queue` has the gateway accept.
use subspace_daemon.Base.{
  Bool-cases, List, Option, Option-cases, Result-cases, String, [], ap, arith, eqb, err, false, inl,
  inr, map, none, not, ok, refl, some, true, ℕ, ◌&&◌, ◌∷◌, ◌≡◌, ◌⊎◌,
}
use subspace_daemon.Attention.Float.{Float}
use subspace_daemon.Attention.Evaluate.{AttentionResult}
use subspace_daemon.Runtime.Retry.{Jitter}
use subspace_daemon.Runtime.Store.{RuntimeStore, mark_processed}
use subspace_daemon.Storage.Schema.{StorageError}
use subspace_daemon.Storage.Tables.{SinkConfig, RoutingSnapshot, DeliveryTicket}
use subspace_daemon.Storage.Store.{DeliveryStore}
use subspace_daemon.Wake.Routing.{wake_sinks, enabled_sink_count}
use subspace_daemon.Wake.Send.{
  Chat, Attempt, Outcome, continues, stopped, retrying, fails, Wake, Progress, stop, send_loop,
}
use subspace_daemon.Wake.Send.Accepted.{
  accepted_chats, Adds, Adds-nothing, Adds-then, Adds-skip, Adds-weaken, send_loop-Adds,
}
use subspace_daemon.Wake.Process.{
  Item, Router, wake_failure_event, wake_chat, queue_wake, is_already_delivered, go_on,
  deliver_wakes, deliver_accepted, deliver_decided, evaluate_item, deliver_item, process_item,
  reconcile_targets, record_decision, record_event, routing_of, is_continues, unsaved,
}

module _ (fl : Float) {R : Type 0} (j : Jitter R) (r : Router fl.F R) (now : ℕ)
    (item : Item fl.F) where
  open fl use {F}

  -- `send_loop` for one sink
  abbrev pub send_to :
      AttentionResult F
      → SinkConfig
      → Option (DeliveryStore × DeliveryTicket)
      → List Attempt
      → Wake F
      → Progress F
  send_to a s ticket attempts w =
      send_loop j r.retry ticket (wake_chat fl j r item a s) (wake_failure_event item.envelope s)
        r.retry.base_ms attempts w

  pub deliver_wakes_over :
      (a : AttentionResult F) (routing : RoutingSnapshot) (attempts : List Attempt) (w : Wake F)
      → deliver_wakes fl j r now item a routing [] attempts w ≡ stop w continues attempts
  unfolding deliver_wakes
  deliver_wakes_over a routing attempts w = refl

  pub deliver_wakes-sends :
      (a : AttentionResult F) (routing : RoutingSnapshot) (s : SinkConfig) (ss : List SinkConfig)
      (attempts : List Attempt) (w : Wake F) {ticket : Option (DeliveryStore × DeliveryTicket)}
      → (queue_wake fl j r now item a routing s w.database).1 ≡ ok ticket
      → is_already_delivered fl j r ticket ≡ false
      → let p =
          send_to a s ticket attempts
            (record w { database = (queue_wake fl j r now item a routing s w.database).0 }) in
        deliver_wakes fl j r now item a routing (s ∷ ss) attempts w
        ≡ go_on p.outcome p (deliver_wakes fl j r now item a routing ss p.rest p.wake)
  unfolding deliver_wakes
  deliver_wakes-sends a routing s ss attempts w h fresh = rw (deliver_wakes, h, fresh) refl

  deliver_wakes-skips :
      (a : AttentionResult F) (routing : RoutingSnapshot) (s : SinkConfig) (ss : List SinkConfig)
      (attempts : List Attempt) (w : Wake F) {ticket : Option (DeliveryStore × DeliveryTicket)}
      → (queue_wake fl j r now item a routing s w.database).1 ≡ ok ticket
      → is_already_delivered fl j r ticket ≡ true
      → deliver_wakes fl j r now item a routing (s ∷ ss) attempts w
        ≡ deliver_wakes fl j r now item a routing ss attempts
            (record w { database = (queue_wake fl j r now item a routing s w.database).0 })
  unfolding deliver_wakes
  deliver_wakes-skips a routing s ss attempts w h known = rw (deliver_wakes, h, known) refl

  deliver_wakes-fails :
      (a : AttentionResult F) (routing : RoutingSnapshot) (s : SinkConfig) (ss : List SinkConfig)
      (attempts : List Attempt) (w : Wake F) {e : StorageError}
      → (queue_wake fl j r now item a routing s w.database).1 ≡ err e
      → (deliver_wakes fl j r now item a routing (s ∷ ss) attempts w).wake.sent ≡ w.sent
  unfolding deliver_wakes
  deliver_wakes-fails a routing s ss attempts w h = rw (deliver_wakes, h) refl

  go_on-Adds :
      (o : Outcome) (w : Wake F) (p rest : Progress F) (chat : Chat) (chats : List Chat)
      → Adds w p.wake (chat ∷ [])
      → Adds p.wake rest.wake chats
      → Adds w (go_on o p rest).wake (chat ∷ chats)
  go_on-Adds continues w p rest chat chats one more =
      Adds-then w p.wake rest.wake chat chats one more
  go_on-Adds stopped w p rest chat chats one more = Adds-weaken w p.wake chat chats one
  go_on-Adds retrying w p rest chat chats one more = Adds-weaken w p.wake chat chats one
  go_on-Adds (fails e) w p rest chat chats one more = Adds-weaken w p.wake chat chats one
  go_on-Adds (unsaved e) w p rest chat chats one more = Adds-weaken w p.wake chat chats one

  -- The loop over the wake sinks has at most one wake accepted for each of them.
  deliver_wakes-Adds :
      (a : AttentionResult F) (routing : RoutingSnapshot) (ss : List SinkConfig)
      (attempts : List Attempt) (w : Wake F)
      → Adds w
          (deliver_wakes fl j r now item a routing ss attempts w).wake
          (map (wake_chat fl j r item a) ss)
  deliver_wakes-Adds a routing [] attempts w =
      rw (deliver_wakes_over a routing attempts w) (Adds-nothing w w [] refl)
  deliver_wakes-Adds a routing (s ∷ ss) attempts w =
      let queued = queue_wake fl j r now item a routing s w.database in
      let chat = wake_chat fl j r item a s in
      let chats = map (wake_chat fl j r item a) ss in
      elim (Result-cases queued.1) [
        | inr (e, h) ↦
            let after = (deliver_wakes fl j r now item a routing (s ∷ ss) attempts w).wake in
            Adds-nothing w after (chat ∷ chats)
              (ap accepted_chats (deliver_wakes-fails a routing s ss attempts w h))
        | inl (ticket, h) ↦
            let w0 = record w { database = queued.0 } in
            elim (Bool-cases (is_already_delivered fl j r ticket)) [
              | inl known ↦ rw (deliver_wakes-skips a routing s ss attempts w h known) (
                  Adds-skip w (deliver_wakes fl j r now item a routing ss attempts w0).wake chat
                    chats (deliver_wakes-Adds a routing ss attempts w0))
              | inr fresh ↦
                  let p = send_to a s ticket attempts w0 in
                  let rest = deliver_wakes fl j r now item a routing ss p.rest p.wake in
                  rw (deliver_wakes-sends a routing s ss attempts w h fresh) (
                    go_on-Adds p.outcome w p rest chat chats
                      (send_loop-Adds j r.retry ticket chat (wake_failure_event item.envelope s)
                        r.retry.base_ms attempts w0)
                      (deliver_wakes-Adds a routing ss p.rest p.wake))
            ]
      ]

  deliver_accepted-reconcile_fails :
      (a : AttentionResult F) (attempts : List Attempt) (w : Wake F) {e : StorageError}
      → (reconcile_targets fl j r now w.database).1 ≡ err e
      → (deliver_accepted fl j r now item a attempts w).wake.sent ≡ w.sent
  unfolding deliver_accepted
  deliver_accepted-reconcile_fails a attempts w h = rw (deliver_accepted, h) refl

  deliver_accepted-record_fails :
      (a : AttentionResult F) (attempts : List Attempt) (w : Wake F) {u : Unit {0}}
      {e : StorageError}
      → (reconcile_targets fl j r now w.database).1 ≡ ok u
      → (record_event fl j r now item a (reconcile_targets fl j r now w.database).0).1 ≡ err e
      → (deliver_accepted fl j r now item a attempts w).wake.sent ≡ w.sent
  unfolding deliver_accepted
  deliver_accepted-record_fails a attempts w h g = rw (deliver_accepted, h, g) refl

  pub deliver_accepted-records :
      (a : AttentionResult F) (attempts : List Attempt) (w : Wake F) {u v : Unit {0}}
      → (reconcile_targets fl j r now w.database).1 ≡ ok u
      → (record_event fl j r now item a (reconcile_targets fl j r now w.database).0).1 ≡ ok v
      → deliver_accepted fl j r now item a attempts w
        ≡ deliver_wakes fl j r now item a
            (routing_of fl j r item)
            (wake_sinks r.sinks)
            attempts
            (record w {
              database =
                  (record_event fl j r now item a (reconcile_targets fl j r now w.database).0).0;
            })
  unfolding deliver_accepted
  deliver_accepted-records a attempts w h g = rw (deliver_accepted, h, g) refl

  deliver_accepted-Adds :
      (a : AttentionResult F) (attempts : List Attempt) (w : Wake F)
      → Adds w
          (deliver_accepted fl j r now item a attempts w).wake
          (map (wake_chat fl j r item a) (wake_sinks r.sinks))
  deliver_accepted-Adds a attempts w =
      let reconciled = reconcile_targets fl j r now w.database in
      let stored = record_event fl j r now item a reconciled.0 in
      let after = (deliver_accepted fl j r now item a attempts w).wake in
      let chats = map (wake_chat fl j r item a) (wake_sinks r.sinks) in
      elim (Result-cases reconciled.1) [
        | inr (e, h) ↦
            Adds-nothing w after chats
              (ap accepted_chats (deliver_accepted-reconcile_fails a attempts w h))
        | inl (u, h) ↦ elim (Result-cases stored.1) [
          | inr (e, g) ↦
              Adds-nothing w after chats
                (ap accepted_chats (deliver_accepted-record_fails a attempts w h g))
          | inl (v, g) ↦ rw (deliver_accepted-records a attempts w h g) (
              deliver_wakes-Adds a (routing_of fl j r item) (wake_sinks r.sinks) attempts
                (record w { database = stored.0 }))
        ]
      ]

  deliver_decided-blocked :
      (a : AttentionResult F) (attempts : List Attempt) (w : Wake F)
      → (a.deliver && not (eqb (enabled_sink_count r.sinks) 0)) ≡ false
      → (deliver_decided fl j r now item a attempts w).wake.sent ≡ w.sent
  unfolding deliver_decided
  deliver_decided-blocked a attempts w h = ground arith

  pub deliver_decided-accepted :
      (a : AttentionResult F) (attempts : List Attempt) (w : Wake F)
      → (a.deliver && not (eqb (enabled_sink_count r.sinks) 0)) ≡ true
      → deliver_decided fl j r now item a attempts w ≡ deliver_accepted fl j r now item a attempts w
  unfolding deliver_decided
  deliver_decided-accepted a attempts w h = ground arith

  deliver_decided-Adds :
      (a : AttentionResult F) (attempts : List Attempt) (w : Wake F)
      → Adds w
          (deliver_decided fl j r now item a attempts w).wake
          (map (wake_chat fl j r item a) (wake_sinks r.sinks))
  deliver_decided-Adds a attempts w =
      elim (Bool-cases (a.deliver && not (eqb (enabled_sink_count r.sinks) 0))) [
        | inl h ↦ rw (deliver_decided-accepted a attempts w h) (deliver_accepted-Adds a attempts w)
        | inr h ↦
            Adds-nothing w (deliver_decided fl j r now item a attempts w).wake
              (map (wake_chat fl j r item a) (wake_sinks r.sinks))
              (ap accepted_chats (deliver_decided-blocked a attempts w h))
      ]

  deliver_item-fails :
      (attempts : List Attempt) (w : Wake F) {e : StorageError}
      → (record_decision fl j r now item (evaluate_item fl j r item) w.database).1 ≡ err e
      → (deliver_item fl j r now item attempts w).wake.sent ≡ w.sent
  unfolding deliver_item
  deliver_item-fails attempts w h = rw (deliver_item, h) refl

  pub deliver_item-decides :
      (attempts : List Attempt) (w : Wake F) {u : Unit {0}}
      → (record_decision fl j r now item (evaluate_item fl j r item) w.database).1 ≡ ok u
      → deliver_item fl j r now item attempts w
        ≡ deliver_decided fl j r now item (evaluate_item fl j r item) attempts (record w {
          database = (record_decision fl j r now item (evaluate_item fl j r item) w.database).0;
        })
  unfolding deliver_item
  deliver_item-decides attempts w h = rw (deliver_item, h) refl

  -- Writing the runtime store sends nothing.
  process_item-sends :
      (attempts : List Attempt) (flushing : Option String) (w : Wake F) (runtime : RuntimeStore)
      → (process_item fl j r now item attempts flushing w runtime).progress.wake
        ≡ (deliver_item fl j r now item attempts w).wake
  unfolding process_item
  process_item-sends attempts flushing w runtime =
      elim (Bool-cases (is_continues (deliver_item fl j r now item attempts w).outcome)) [
        | inl h ↦ rw (process_item, h) refl
        | inr h ↦ rw (process_item, h) refl
      ]

  deliver_item-Adds :
      (attempts : List Attempt) (w : Wake F)
      → Adds w
          (deliver_item fl j r now item attempts w).wake
          (map (wake_chat fl j r item (evaluate_item fl j r item)) (wake_sinks r.sinks))
  deliver_item-Adds attempts w =
      let a = evaluate_item fl j r item in
      let decided = record_decision fl j r now item a w.database in
      elim (Result-cases decided.1) [
        | inr (e, h) ↦
            Adds-nothing w (deliver_item fl j r now item attempts w).wake
              (map (wake_chat fl j r item a) (wake_sinks r.sinks))
              (ap accepted_chats (deliver_item-fails attempts w h))
        | inl (u, h) ↦
            rw (deliver_item-decides attempts w h)
              (deliver_decided-Adds a attempts (record w { database = decided.0 }))
      ]

  -- In one turn the gateway accepts at most one wake for each enabled wake sink, in the order of
  -- the sinks and with the key, the text and the session of that sink, however often the sends
  -- are refused and wherever the turn ends.
  pub wakes_at_most_once :
      (attempts : List Attempt) (flushing : Option String) (w : Wake F) (runtime : RuntimeStore)
      → Adds w
          (process_item fl j r now item attempts flushing w runtime).progress.wake
          (map (wake_chat fl j r item (evaluate_item fl j r item)) (wake_sinks r.sinks))
  wakes_at_most_once attempts flushing w runtime =
      rw (process_item-sends attempts flushing w runtime) (deliver_item-Adds attempts w)

  -- A message that the attention layer does not deliver is never sent. Its turn goes on to the
  -- next message with this one marked as processed; or it ends with the error of writing the
  -- runtime store, where this one is marked too; or it ends with the error of recording the
  -- decision, where this one is not marked.
  pub filtered_not_sent :
      (attempts : List Attempt) (flushing : Option String) (w : Wake F) (runtime : RuntimeStore)
      → (evaluate_item fl j r item).deliver ≡ false
      → let t = process_item fl j r now item attempts flushing w runtime in
        let marked = mark_processed item.envelope.message_id item.envelope.timestamp runtime in
        (t.progress.wake.sent ≡ w.sent)
        × (((flushing ≡ none) × (t.progress.outcome ≡ continues) × (t.runtime ≡ marked))
            ⊎ ((e : String) × (flushing ≡ some e)
                × (t.progress.outcome ≡ unsaved e)
                × (t.runtime ≡ marked))
            ⊎ ((e : StorageError) × (t.progress.outcome ≡ fails e) × (t.runtime ≡ runtime)))
  unfolding process_item deliver_item deliver_decided
  filtered_not_sent attempts flushing w runtime h =
      let a = evaluate_item fl j r item in
      elim (Result-cases (record_decision fl j r now item a w.database).1) [
        | inr (e, g) ↦ rw (process_item, deliver_item, g) (refl, inr (inr (e, refl, refl)))
        | inl (u, g) ↦ elim (Option-cases flushing) [
          | inl n ↦
              rw (process_item, deliver_item, g, deliver_decided, h, n)
                (refl, inl (refl, refl, refl))
          | inr (e, n) ↦
              rw (process_item, deliver_item, g, deliver_decided, h, n)
                (refl, inr (inl (e, refl, refl, refl)))
        ]
      ]
