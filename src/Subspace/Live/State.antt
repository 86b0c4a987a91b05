-- ===== src/Subspace/Live/State.antt =====
-- src/subspace/client.rs, `connect_once`: the state of a connection that is live, and its events. An
-- event is a branch of the `select!` with what the world answers; a request is named by a number.
use subspace_daemon.Base.{List, Option, Result, String, [], err, none, some, ℕ, ◌++◌, ◌∷◌}
use subspace_daemon.Base.Json.{Json}
use subspace_daemon.Attention.Outbound.{OutboundEmbeddingRequest}
use subspace_daemon.HardFailure.{HardFailureEvent}
use subspace_daemon.Ipc.{OutboundSendResult}
use subspace_daemon.Pending.{put}
use subspace_daemon.Runtime.Store.{RuntimeStore}
use subspace_daemon.Status.{DaemonStatus}
use subspace_daemon.Subspace.Auth.{SessionAuth}
use subspace_daemon.Subspace.Frames.{Message}
use subspace_daemon.Subspace.Session.{ActiveSession}
use subspace_daemon.Wake.Process.{Item}

pub record PendingSend : Type 0 where
  pub reply : ℕ
  pub idempotency_key : String

-- What the loop changes: `saved` is the last session that was written to its file, `queue` what
-- was put on the wake queue, `frames` what was sent.
pub record Live (F N K : Type 0) : Type 0 where
  pub session : ActiveSession K
  pub saved : Option (ActiveSession K)
  pub pending : List (String × PendingSend)
  pub runtime : RuntimeStore
  pub status : DaemonStatus
  pub queue : List (Item F)
  pub frames : List (Json N)
  pub replies : List (ℕ × Result String OutboundSendResult)
  pub failures : List HardFailureEvent

-- `wake_tx.try_send`
pub data Room : Type 0 where
  room full gone : Room

-- Why something is not written, if it is not.
abbrev pub Failure : Type 0
Failure = Option String

-- `processed` is the task of the wake queue, which shares the runtime store of the connection.
pub data Event (F : Type 0) : Type 0 where
  shutdown commands_closed stream_ended : Event F
  tick : ℕ → Result String SessionAuth → Failure → Failure → String → Event F
  command :
      ℕ → String → Option String → OutboundEmbeddingRequest F → String → String → Failure → Event F
  stream_error : String → Event F
  received : Message → Room → Failure → Event F
  processed : String → String → Event F

-- How an event ends: the loop goes on, returns `Ok(())` or an error.
pub data Ended : Type 0 where
  goes_on stops : Ended
  bails : String → Ended

abbrev pub session_refreshed_reconnecting : String
session_refreshed_reconnecting = "subspace session refreshed; reconnecting"

abbrev pub answers :
    Result String OutboundSendResult
    → List (String × PendingSend)
    → List (ℕ × Result String OutboundSendResult)
answers result [] = []
answers result ((ref, p) ∷ pending) = (p.reply, result) ∷ answers result pending

module _ {F N K : Type 0} where
  unfoldable pub add_reply : ℕ → Result String OutboundSendResult → Live F N K → Live F N K
  add_reply reply result s = record s { replies = s.replies ++ ((reply, result) ∷ []) }

  unfoldable pub fail_pending_sends : String → Live F N K → Live F N K
  fail_pending_sends message s = record s {
    pending = [];
    replies = s.replies ++ answers (err message) s.pending;
  }

  -- The sender of a reply is dropped.
  unfoldable pub drop_reply : Option PendingSend → Live F N K → Live F N K
  unfolding add_reply
  drop_reply none s = s
  drop_reply (some p) s = add_reply p.reply (err "subspace server reply channel closed") s

  -- The loop has ended, so that all pending senders are dropped.
  unfoldable pub close : Live F N K → Live F N K
  unfolding fail_pending_sends
  close s = fail_pending_sends "subspace server reply channel closed" s

  -- the request is put among the pending ones
  unfoldable pub add_pending : String → PendingSend → Live F N K → Live F N K
  unfolding put drop_reply
  add_pending ref p s =
      let added = put ref p s.pending in drop_reply added.0 (record s { pending = added.1 })

  abbrev pub on : Ended → Live F N K → Live F N K × Ended
  on ended s = (s, ended)
