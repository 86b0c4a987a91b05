-- ===== src/Examples/Wakes.antt =====
-- One turn of the wake queue on concrete messages.
use subspace_daemon.Runtime.Retry.{jitter}
use subspace_daemon.Base.{
  List, Option, String, [], decimal, eqb, false, join, length, map, none, refl, some, trim, true, ℕ,
  ◌++◌, ◌∷◌, ◌≡◌, ◌⊎◌,
}
use subspace_daemon.Attention.Scoring.{dot_from, cosine_similarity}
use subspace_daemon.Attention.Receptor.{load_receptor_packs, is_veto, is_wildcard}
use subspace_daemon.Attention.Plugin.{embed}
use subspace_daemon.Attention.Layer.{
  new, load_receptors, configure_backend, compute_receptors, compute_receptor, compute_all,
}
use subspace_daemon.Attention.Evaluate.{
  evaluate_with_embeddings, evaluate_with_vector, select_message_vector, score_receptor,
}
use subspace_daemon.Storage.Tables.{agent_session_wake}
use subspace_daemon.Storage.Schema.{StorageError}
use subspace_daemon.Runtime.Store.{RuntimeStore, mark_processed, load}
use subspace_daemon.Wake.Routing.{wake_sinks, enabled_sink_count}
use subspace_daemon.Wake.Send.{
  Attempt, Reply, accepted, refused, continues, fails, Wake, send_loop, end_attempt, make_attempt,
  unsaved,
}
use subspace_daemon.Wake.Send.Accepted.{Adds, accepted_chats}
use subspace_daemon.Wake.Process.{
  Item, Router, wake_chat, evaluate_item, process_item, Turn, deliver_wakes,
}
use subspace_daemon.Wake.Process.Wakes.{wakes_at_most_once, filtered_not_sent}
use subspace_daemon.Wake.Process.Live.{enough, wakes_all_accepted}
use subspace_daemon.Examples.Layers.{small, machine, config}
use subspace_daemon.Examples.Stores.{dice, retry}
use subspace_daemon.Examples.Deliveries.{start, envelope}

abbrev item : List ℕ → Item ℕ
item vector = record {
  envelope = record envelope {
    sender_embeddings = record { space_id = "local"; vector = vector } ∷ [];
  };
  attention = new small machine config;
  wake_session_key_override = none;
}

abbrev router : Router ℕ ℕ
router = record {
  wake_session_key = "main";
  retry = retry;
  sinks =
      record { key = "one"; kind = agent_session_wake; enabled = true; destination = none }
      ∷ record { key = "off"; kind = agent_session_wake; enabled = false; destination = none }
      ∷ record { key = "two"; kind = agent_session_wake; enabled = true; destination = some "b" }
      ∷ [];
  delivery_store = none;
  describe = λ e. "error";
  show_score = λ s. "score";
  session_config_json = λ key. key;
}

abbrev attempt : Reply → Attempt
attempt reply = record { at = 1; ended = 2; reply = reply }

-- The first wake is refused twice.
abbrev attempts : List Attempt
attempts =
    attempt (refused "down") ∷ attempt (refused "down") ∷ attempt accepted ∷ attempt accepted ∷ []

abbrev idle : Wake ℕ
idle = record { database = start; sent = []; delays = []; failures = [] }

abbrev unseen : RuntimeStore
unseen = load 0 none 2 none

abbrev disk_full : Option String
disk_full = some "disk full"

abbrev turn : List ℕ → Turn ℕ
turn vector = process_item small dice router 9 (item vector) attempts none idle unseen

accepted_here :
    map (λ c. c.idempotency_key) (accepted_chats (turn (1 ∷ 0 ∷ [])).progress.wake.sent)
    ≡ "a:m1:one" ∷ "a:m1:two" ∷ []
unfolding process_item accepted_chats evaluate_with_embeddings new load_receptors configure_backend
    compute_receptors load_receptor_packs compute_receptor compute_all embed select_message_vector
    evaluate_with_vector score_receptor cosine_similarity trim decimal is_veto is_wildcard dot_from
    deliver_wakes send_loop make_attempt end_attempt join
accepted_here = refl

delays_here : (turn (1 ∷ 0 ∷ [])).progress.wake.delays ≡ 10 ∷ 20 ∷ []
unfolding process_item evaluate_with_embeddings new load_receptors configure_backend
    compute_receptors load_receptor_packs compute_receptor compute_all embed select_message_vector
    evaluate_with_vector score_receptor cosine_similarity trim decimal is_veto is_wildcard dot_from
    deliver_wakes send_loop make_attempt end_attempt jitter
delays_here = refl

delivered_here : (evaluate_item small dice router (item (1 ∷ 0 ∷ []))).deliver ≡ true
unfolding evaluate_with_embeddings new load_receptors configure_backend compute_receptors
    load_receptor_packs compute_receptor compute_all embed select_message_vector
    evaluate_with_vector score_receptor cosine_similarity trim decimal is_veto is_wildcard dot_from
delivered_here = refl

vetoed_here : (evaluate_item small dice router (item (1 ∷ 1 ∷ []))).deliver ≡ false
unfolding evaluate_with_embeddings new load_receptors configure_backend compute_receptors
    load_receptor_packs compute_receptor compute_all embed select_message_vector
    evaluate_with_vector score_receptor cosine_similarity trim decimal is_veto is_wildcard dot_from
vetoed_here = refl

sinks_here : eqb (enabled_sink_count router.sinks) 0 ≡ false
unfolding enabled_sink_count
sinks_here = refl

enough_here : enough (length (wake_sinks router.sinks)) attempts ≡ true
unfolding enough wake_sinks
enough_here = refl

wakes_at_most_once_example : Adds idle (turn (1 ∷ 0 ∷ [])).progress.wake (
    map
      (wake_chat small dice router
        (item (1 ∷ 0 ∷ []))
        (evaluate_item small dice router (item (1 ∷ 0 ∷ []))))
      (wake_sinks router.sinks))
wakes_at_most_once_example =
    wakes_at_most_once small dice router 9 (item (1 ∷ 0 ∷ [])) attempts none idle unseen

filtered_not_sent_example :
    (let t =
        process_item small dice router 9
          (item (1 ∷ 1 ∷ []))
          attempts
          (some "disk full")
          idle
          unseen in
      let marked = mark_processed envelope.message_id envelope.timestamp unseen in
      (t.progress.wake.sent ≡ idle.sent)
      × (((disk_full ≡ none) × (t.progress.outcome ≡ continues) × (t.runtime ≡ marked))
          ⊎ ((e : String) × (disk_full ≡ some e)
              × (t.progress.outcome ≡ unsaved e)
              × (t.runtime ≡ marked))
          ⊎ ((e : StorageError) × (t.progress.outcome ≡ fails e) × (t.runtime ≡ unseen))))
filtered_not_sent_example =
    filtered_not_sent small dice router 9 (item (1 ∷ 1 ∷ [])) attempts disk_full idle unseen
      vetoed_here

wakes_all_accepted_example :
    (let t = turn (1 ∷ 0 ∷ []) in
      (t.progress.outcome ≡ continues)
      × (accepted_chats t.progress.wake.sent
          ≡ accepted_chats idle.sent
            ++ map
                (wake_chat small dice router
                  (item (1 ∷ 0 ∷ []))
                  (evaluate_item small dice router (item (1 ∷ 0 ∷ []))))
                (wake_sinks router.sinks))
      × (t.runtime ≡ mark_processed envelope.message_id envelope.timestamp unseen))
wakes_all_accepted_example =
    wakes_all_accepted small dice router 9 (item (1 ∷ 0 ∷ [])) attempts none idle unseen refl
      delivered_here sinks_here enough_here
