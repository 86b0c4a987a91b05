-- ===== src/Wake/Process/Live.antt =====
-- Where the gateway accepts in the end, a message that is to be delivered is, and its turn ends.
use mathlib.Core.List.{append_assoc, append-nil}
use subspace_daemon.Base.{
  Bool, List, Option, Option-cases, String, [], ap, arith, eqb, false, inl, inr, length, map, none,
  not, ok, refl, some, suc, sym, true, zero, ℕ, ◌&&◌, ◌++◌, ◌∙◌, ◌∷◌, ◌≡◌, ◌≢◌, ◌⊎◌,
}
use subspace_daemon.Attention.Float.{Float}
use subspace_daemon.Attention.Evaluate.{AttentionResult}
use subspace_daemon.HardFailure.{HardFailureEvent}
use subspace_daemon.Runtime.Retry.{Jitter}
use subspace_daemon.Runtime.Store.{RetryConfig, RuntimeStore, mark_processed}
use subspace_daemon.Storage.Tables.{SinkConfig, RoutingSnapshot, Database}
use subspace_daemon.Wake.Routing.{wake_sinks, enabled_sink_count}
use subspace_daemon.Wake.Process.{
  Item, Router, wake_failure_event, wake_chat, queue_wake, go_on, with_store, deliver_wakes,
  evaluate_item, deliver_item, process_item, reconcile_targets, record_decision, record_event,
  routing_of, DeliveryStore, record_attention_decision, Action, db_sink, reconcile_sink_targets,
  unsaved,
}
use subspace_daemon.Wake.Process.Wakes.{
  send_to, deliver_wakes_over, deliver_wakes-sends, deliver_accepted-records,
  deliver_decided-accepted, deliver_item-decides,
}
use subspace_daemon.Wake.Send.{
  Chat, Reply, accepted, expired, refused, refused_last, Attempt, continues, Wake, Progress, note,
  send_loop, next_backoff, make_attempt, end_attempt, note_refusal,
}
use subspace_daemon.Wake.Send.Accepted.{
  accepted_chats, accepted_chats-append, send_loop-ends, send_loop-goes_on,
}

-- No deadline comes in between, and at least so many attempts are accepted.
unfoldable pub enough : ℕ → List Attempt → Bool
enough zero attempts = true
enough (suc n) [] = false
enough (suc n) (a ∷ more) = elim a.reply [
  | accepted ↦ enough n more
  | refused m ↦ enough (suc n) more
  | refused_last m ↦ false
  | expired ↦ false
]

Reply-cases :
    (x : Reply)
    → (x ≡ accepted)
      ⊎ ((m : String) × (x ≡ refused m))
      ⊎ ((n : ℕ) (more : List Attempt) (a : Attempt)
          → a.reply ≡ x
          → enough (suc n) (a ∷ more) ≡ false)
unfolding enough
Reply-cases accepted = inl refl
Reply-cases (refused m) = inr (inl (m, refl))
Reply-cases (refused_last m) = inr (inr (λ n more a e. rw e refl))
Reply-cases expired = inr (inr (λ n more a e. rw e refl))

enough-accepted :
    (n : ℕ) (a : Attempt) (more : List Attempt)
    → a.reply ≡ accepted
    → enough (suc n) (a ∷ more) ≡ enough n more
unfolding enough
enough-accepted n a more e = rw e refl

enough-refused :
    (n : ℕ) (a : Attempt) (more : List Attempt) {m : String}
    → a.reply ≡ refused m
    → enough (suc n) (a ∷ more) ≡ enough (suc n) more
unfolding enough
enough-refused n a more e = rw e refl

not_enough : (n : ℕ) → enough (suc n) [] ≢ true
unfolding enough
not_enough n h = ground arith

module _ {F R : Type 0} (j : Jitter R) (retry : RetryConfig R) where
  attempt-accepted :
      (chat : Chat) (event : String → HardFailureEvent) (backoff : ℕ) (a : Attempt) (w : Wake F)
      → a.reply ≡ accepted
      → make_attempt j retry none chat event backoff a w
        ≡ (note chat accepted w.database w, some continues)
  unfolding make_attempt end_attempt
  attempt-accepted chat event backoff a w e = rw e refl

  attempt-refused :
      (chat : Chat) (event : String → HardFailureEvent) (backoff : ℕ) (a : Attempt) (w : Wake F)
      {m : String}
      → a.reply ≡ refused m
      → make_attempt j retry none chat event backoff a w
        ≡ (note_refusal j retry (event m) backoff (note chat (refused m) w.database w), none)
  unfolding make_attempt end_attempt
  attempt-refused chat event backoff a w e = rw e refl

  -- What the loop leaves where its chat was accepted.
  abbrev pub IsAccepted : ℕ → Chat → Wake F → Progress F → Type 0
  IsAccepted n chat w p =
      (p.outcome ≡ continues)
      × (enough n p.rest ≡ true)
      × (accepted_chats p.wake.sent ≡ accepted_chats w.sent ++ (chat ∷ []))

  accepted-append :
      (w : Wake F) (chat : Chat)
      → accepted_chats (w.sent ++ ((chat, accepted) ∷ [])) ≡ accepted_chats w.sent ++ (chat ∷ [])
  unfolding accepted_chats
  accepted-append w chat = accepted_chats-append w.sent ((chat, accepted) ∷ [])

  refused-append :
      (w : Wake F) (chat : Chat) (m : String)
      → accepted_chats (w.sent ++ ((chat, refused m) ∷ [])) ≡ accepted_chats w.sent
  unfolding accepted_chats
  refused-append w chat m =
      accepted_chats-append w.sent ((chat, refused m) ∷ []) ∙ append-nil (accepted_chats w.sent)

  refusal-sent :
      (w : Wake F) (chat : Chat) (e : HardFailureEvent) (backoff : ℕ) (m : String)
      → accepted_chats (note_refusal j retry e backoff (note chat (refused m) w.database w)).sent
        ≡ accepted_chats w.sent
  unfolding note_refusal
  refusal-sent w chat e backoff m = refused-append w chat m

  send_loop-IsAccepted :
      (chat : Chat) (event : String → HardFailureEvent) (backoff n : ℕ) (attempts : List Attempt)
      (w : Wake F)
      → enough (suc n) attempts ≡ true
      → IsAccepted n chat w (send_loop j retry none chat event backoff attempts w)
  send_loop-IsAccepted chat event backoff n [] w h = absurd (not_enough n h)
  send_loop-IsAccepted chat event backoff n (a ∷ more) w h = elim (Reply-cases a.reply) [
    | inl e ↦
        let made = attempt-accepted chat event backoff a w e in
        rw (send_loop-ends j retry none chat event backoff a more w (ap (λ x. x.1) made), made)
          (refl, sym (enough-accepted n a more e) ∙ h, accepted-append w chat)
    | inr (inl (m, e)) ↦
        let made = attempt-refused chat event backoff a w e in
        let next = next_backoff j retry backoff in
        let w' = note_refusal j retry (event m) backoff (note chat (refused m) w.database w) in
        let later =
          send_loop-IsAccepted chat event next n more w' (sym (enough-refused n a more e) ∙ h) in
        rw (send_loop-goes_on j retry none chat event backoff a more w (ap (λ x. x.1) made), made)
          (
            later.0,
            later.1,
            later.2 ∙ ap (λ xs. xs ++ (chat ∷ [])) (refusal-sent w chat (event m) backoff m),
          )
    | inr (inr never) ↦ absurd (ground (arith, never n more a refl))
  ]

module _ (fl : Float) {R : Type 0} (j : Jitter R) (r : Router fl.F R) (now : ℕ)
    (item : Item fl.F) where
  open fl use {F}

  -- What the loop over the wake sinks leaves where each of their chats was accepted.
  abbrev AllAccepted : List Chat → Wake F → Progress F → Type 0
  AllAccepted chats w p =
      (p.outcome ≡ continues) × (accepted_chats p.wake.sent ≡ accepted_chats w.sent ++ chats)

  go_on-AllAccepted :
      (chat : Chat) (chats : List Chat) (n : ℕ) (w : Wake F) (p rest : Progress F)
      → IsAccepted j r.retry n chat w p
      → AllAccepted chats p.wake rest
      → AllAccepted (chat ∷ chats) w (go_on p.outcome p rest)
  go_on-AllAccepted chat chats n w p rest one more = rw (one.0) (
    more.0,
    more.1 ∙ ap (λ xs. xs ++ chats) one.2 ∙ append_assoc (accepted_chats w.sent) (chat ∷ []) chats,
  )

  queue_wake-none :
      (a : AttentionResult F) (routing : RoutingSnapshot) (s : SinkConfig) (d : Database F)
      → r.delivery_store ≡ none
      → (queue_wake fl j r now item a routing s d).1 ≡ ok none
  unfolding queue_wake
  queue_wake-none a routing s d h = rw h refl

  deliver_wakes-AllAccepted :
      (a : AttentionResult F) (routing : RoutingSnapshot) (ss : List SinkConfig)
      (attempts : List Attempt) (w : Wake F)
      → r.delivery_store ≡ none
      → enough (length ss) attempts ≡ true
      → AllAccepted
          (map (wake_chat fl j r item a) ss)
          w
          (deliver_wakes fl j r now item a routing ss attempts w)
  deliver_wakes-AllAccepted a routing [] attempts w h e =
      rw (deliver_wakes_over fl j r now item a routing attempts w)
        (refl, sym (append-nil (accepted_chats w.sent)))
  deliver_wakes-AllAccepted a routing (s ∷ ss) attempts w h e =
      let queued = queue_wake fl j r now item a routing s w.database in
      let chat = wake_chat fl j r item a s in
      let w0 = record w { database = queued.0 } in
      let p = send_to fl j r now item a s none attempts w0 in
      let one =
        send_loop-IsAccepted j r.retry chat (wake_failure_event item.envelope s) r.retry.base_ms
          (length ss) attempts w0 e in
      rw
        (deliver_wakes-sends fl j r now item a routing s ss attempts w
          (queue_wake-none a routing s w.database h) refl)
        (go_on-AllAccepted chat (map (wake_chat fl j r item a) ss) (length ss) w0 p
          (deliver_wakes fl j r now item a routing ss p.rest p.wake) one
          (deliver_wakes-AllAccepted a routing ss p.rest p.wake h one.1))

  record_event-none :
      (a : AttentionResult F) (d : Database F)
      → r.delivery_store ≡ none
      → (record_event fl j r now item a d).1 ≡ ok tt
  unfolding record_event
  record_event-none a d h = elim (Option-cases (db_sink r.sinks)) [
    | inl e ↦ rw (record_event, e) refl
    | inr (s, e) ↦ rw (record_event, e, h) refl
  ]

  with_store-none :
      {A : Type 0} (f : DeliveryStore → Action F A) (d : Database F)
      → r.delivery_store ≡ none
      → (with_store fl j r f d).1 ≡ ok tt
  with_store-none f d h = rw h refl

  deliver_item-AllAccepted :
      (attempts : List Attempt) (w : Wake F)
      → r.delivery_store ≡ none
      → ((evaluate_item fl j r item).deliver && not (eqb (enabled_sink_count r.sinks) 0)) ≡ true
      → enough (length (wake_sinks r.sinks)) attempts ≡ true
      → AllAccepted
          (map (wake_chat fl j r item (evaluate_item fl j r item)) (wake_sinks r.sinks))
          w
          (deliver_item fl j r now item attempts w)
  deliver_item-AllAccepted attempts w h d e =
      let a = evaluate_item fl j r item in
      let decided = record_decision fl j r now item a w.database in
      let w1 = record w { database = decided.0 } in
      let reconciled = reconcile_targets fl j r now decided.0 in
      let stored = record_event fl j r now item a reconciled.0 in
      rw
        (
          deliver_item-decides fl j r now item attempts w
              (with_store-none (λ s. record_attention_decision s now item.envelope a) w.database h),
          deliver_decided-accepted fl j r now item a attempts w1 d,
          deliver_accepted-records fl j r now item a attempts w1
              (with_store-none (λ s. reconcile_sink_targets s now r.sinks r.wake_session_key)
                decided.0 h)
              (record_event-none a reconciled.0 h),
        )
        (deliver_wakes-AllAccepted a (routing_of fl j r item) (wake_sinks r.sinks) attempts
          (record w1 { database = stored.0 }) h e)

  -- Without a delivery store, where the attention layer delivers a message, some sink is enabled,
  -- and before any deadline the gateway accepts as many attempts as there are wake sinks, the
  -- gateway accepted the wake of each wake sink once and in their order, and the message is marked
  -- as processed, however many attempts were refused. The turn then goes on to the next message,
  -- or ends with the error of writing the runtime store if that has one.
  pub wakes_all_accepted :
      (attempts : List Attempt) (flushing : Option String) (w : Wake F) (runtime : RuntimeStore)
      → r.delivery_store ≡ none
      → (evaluate_item fl j r item).deliver ≡ true
      → eqb (enabled_sink_count r.sinks) 0 ≡ false
      → enough (length (wake_sinks r.sinks)) attempts ≡ true
      → let t = process_item fl j r now item attempts flushing w runtime in
        (t.progress.outcome ≡ elim flushing [ none ↦ continues | some e ↦ unsaved e ])
        × (accepted_chats t.progress.wake.sent
            ≡ accepted_chats w.sent
              ++ map (wake_chat fl j r item (evaluate_item fl j r item)) (wake_sinks r.sinks))
        × (t.runtime ≡ mark_processed item.envelope.message_id item.envelope.timestamp runtime)
  unfolding process_item
  wakes_all_accepted attempts flushing w runtime h d c e =
      let all = deliver_item-AllAccepted attempts w h (ground (arith, d, c)) e in
      elim (Option-cases flushing) [
        | inl n ↦ rw (process_item, all.0, n) (refl, all.1, refl)
        | inr (x, n) ↦ rw (process_item, all.0, n) (refl, all.1, refl)
      ]
