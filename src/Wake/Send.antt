-- ===== src/Wake/Send.antt =====
-- src/supervisor.rs: the sending of one wake to the gateway, with its retries.
pub mod Accepted
use Prim.Native.Nat.{◌^◌}
use subspace_daemon.Base.{List, Option, String, [], err, min, none, ok, some, ℕ, ◌*◌, ◌++◌, ◌∷◌}
use subspace_daemon.HardFailure.{HardFailureEvent}
use subspace_daemon.Runtime.Retry.{Jitter, jitter}
use subspace_daemon.Runtime.Store.{RetryConfig, u64_max}
use subspace_daemon.Storage.Schema.{StorageError}
use subspace_daemon.Storage.Tables.{Database, WakeEnvelope, SinkConfig, DeliveryTicket}
use subspace_daemon.Storage.Action.{Action, pure}
use subspace_daemon.Storage.Store.{
  DeliveryStore, mark_delivery_attempted, mark_delivery_failed, mark_delivery_delivered,
}

-- The arguments of `send_chat`.
pub record Chat : Type 0 where
  pub session_key : String
  pub message : String
  pub idempotency_key : String

-- What happens to one attempt. `expired` is the deadline of a shutdown, before the send or during
-- it; `refused_last` a refusal after which the deadline is over.
pub data Reply : Type 0 where
  accepted expired : Reply
  refused refused_last : String → Reply

-- One attempt: when it is made, when it ends, and how.
pub record Attempt : Type 0 where
  pub at : ℕ
  pub ended : ℕ
  pub reply : Reply

-- How a part of `process_wake_queue` ends: the next statement, a return of `Ok(())` or of an error. `unsaved` is the error of `runtime.flush()`.
-- `retrying` is where the given attempts are over and the loop goes on.
pub data Outcome : Type 0 where
  continues stopped retrying : Outcome
  fails : StorageError → Outcome
  unsaved : String → Outcome

-- What the sending of wakes changes: the database, the attempts with their replies, the delays
-- between them and the failures that are reported.
pub record Wake (F : Type 0) : Type 0 where
  pub database : Database F
  pub sent : List (Chat × Reply)
  pub delays : List ℕ
  pub failures : List HardFailureEvent

-- What a part leaves: its state, how it ended and the attempts that are not used up.
pub record Progress (F : Type 0) : Type 0 where
  pub wake : Wake F
  pub outcome : Outcome
  pub rest : List Attempt

abbrev pub stop : {F : Type 0} → Wake F → Outcome → List Attempt → Progress F
stop w o rest = record { wake = w; outcome = o; rest = rest }

-- `if let Some(store)` and `Some(ticket)`, with the operation on the delivery
abbrev pub on_ticket :
    {F : Type 0}
    → (DeliveryStore → ℕ → Action F (Unit {0}))
    → Option (DeliveryStore × DeliveryTicket)
    → Action F (Unit {0})
on_ticket f none = pure tt
on_ticket f (some (store, ticket)) = f store ticket.delivery_id

abbrev pub note : {F : Type 0} → Chat → Reply → Database F → Wake F → Wake F
note chat reply d w = record w { database = d; sent = w.sent ++ ((chat, reply) ∷ []) }

module _ {R : Type 0} (j : Jitter R) (retry : RetryConfig R) where
  unfoldable pub next_backoff : ℕ → ℕ
  next_backoff backoff = min (min (backoff * 2) u64_max) retry.max_ms

  -- the branch of a refusal, up to its delay
  unfoldable pub note_refusal : {F : Type 0} → HardFailureEvent → ℕ → Wake F → Wake F
  note_refusal e backoff w = record w {
    delays = w.delays ++ (jitter j backoff retry.jitter_ratio ∷ []);
    failures = w.failures ++ (e ∷ []);
  }

  -- The end of an attempt, after it was marked: the state, and how the loop ends if it does.
  -- `event` is the failure that a refusal reports.
  unfoldable pub end_attempt :
      {F : Type 0}
      → Option (DeliveryStore × DeliveryTicket)
      → Chat
      → (String → HardFailureEvent)
      → ℕ
      → ℕ
      → Reply
      → Database F
      → Wake F
      → Wake F × Option Outcome
  unfolding mark_delivery_failed mark_delivery_delivered note_refusal
  end_attempt ticket chat event backoff ended expired d w = (note chat expired d w, some stopped)
  end_attempt ticket chat event backoff ended accepted d w =
      let done = on_ticket (λ s. mark_delivery_delivered s ended) ticket d in
      (note chat accepted done.0 w, some (elim done.1 [ err e ↦ fails e | ok u ↦ continues ]))
  end_attempt ticket chat event backoff ended (refused m) d w =
      let done = on_ticket (λ s id. mark_delivery_failed s ended id m) ticket d in
      let noted = note chat (refused m) done.0 w in
      elim done.1 [
        | err e ↦ (noted, some (fails e))
        | ok u ↦ (note_refusal (event m) backoff noted, none)
      ]
  end_attempt ticket chat event backoff ended (refused_last m) d w =
      let done = on_ticket (λ s id. mark_delivery_failed s ended id m) ticket d in
      let noted = note chat (refused_last m) done.0 w in
      elim done.1 [
        | err e ↦ (noted, some (fails e))
        | ok u ↦ (note_refusal (event m) backoff noted, some stopped)
      ]

  unfoldable pub make_attempt :
      {F : Type 0}
      → Option (DeliveryStore × DeliveryTicket)
      → Chat
      → (String → HardFailureEvent)
      → ℕ
      → Attempt
      → Wake F
      → Wake F × Option Outcome
  unfolding mark_delivery_attempted
  make_attempt ticket chat event backoff a w =
      let marked = on_ticket (λ s. mark_delivery_attempted s a.at) ticket w.database in
      elim marked.1 [
        | err e ↦ (record w { database = marked.0 }, some (fails e))
        | ok u ↦ end_attempt ticket chat event backoff a.ended a.reply marked.0 w
      ]

  -- The inner loop of `process_wake_queue`.
  unfoldable pub send_loop :
      {F : Type 0}
      → Option (DeliveryStore × DeliveryTicket)
      → Chat
      → (String → HardFailureEvent)
      → ℕ
      → List Attempt
      → Wake F
      → Progress F
  unfolding next_backoff
  send_loop ticket chat event backoff [] w = stop w retrying []
  send_loop ticket chat event backoff (a ∷ more) w =
      let made = make_attempt ticket chat event backoff a w in
      elim made.1 [
        | some o ↦ stop made.0 o more
        | none ↦ send_loop ticket chat event (next_backoff backoff) more made.0
      ]
