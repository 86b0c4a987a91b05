-- ===== src/Examples/Requests.antt =====
-- Outbound messages on concrete requests.
use subspace_daemon.Base.{
  List, Result, String, [], err, false, get_or, insert, lookup, none, ok, refl, some, text_lt, true,
  values, ℕ, ◌↔◌, ◌∷◌, ◌≡◌,
}
use subspace_daemon.Attention.Outbound.{OutboundEmbeddingRequest, SpaceError, small_space_id}
use subspace_daemon.Status.{DaemonStatus, new, set_server_state, server_state}
use subspace_daemon.Config.Error.{ConfigError}
use subspace_daemon.Ipc.{
  SendRequest, ServerSendResultEnvelope, mixed_failure, SendRouter, send, post_message,
}
use subspace_daemon.Ipc.Replies.{AreLive}
use subspace_daemon.Ipc.Sends.{AreTargets, AllSent, send_accepts}
use subspace_daemon.Ipc.Accepts.{IsValidRequest, request_of, post_message_accepts}
use subspace_daemon.Examples.Settings.{parse_url}

abbrev status : DaemonStatus
status = set_server_state "https://b" "b" "live" (
    set_server_state "https://a" "a" "live"
      (new "main" (record { base_url = "https://c"; server_key = "c"; enabled = true } ∷ [])))

-- The task of the second server refuses every message.
abbrev router : SendRouter ℕ
router = record {
  status = status;
  handles =
      (
        "https://a",
        λ text key request. ok (record {
          server = "https://a";
          subspace_message_id = some "m7";
          idempotency_key = get_or key "fresh";
        }),
      )
      ∷ ("https://b", λ text key request. err "rejected")
      ∷ [];
}

abbrev one : SendRouter ℕ
one = record router { status = set_server_state "https://b" "b" "connecting" status }

abbrev request : OutboundEmbeddingRequest ℕ
request = record {
  embeddings = [];
  generate_for_spaces = [];
  generated_embeddings_override_supplied = false;
}

abbrev describe : ConfigError → String
describe e = "error"

abbrev sent : ServerSendResultEnvelope
sent = record {
  server = "https://a";
  sent = true;
  subspace_message_id = some "m7";
  idempotency_key = some "k";
  error = none;
}

abbrev refused : ServerSendResultEnvelope
refused = record {
  server = "https://b";
  sent = false;
  subspace_message_id = none;
  idempotency_key = some "k";
  error = some "rejected";
}

sent_here : send parse_url describe one "hello" (some "k") none request ≡ ok (sent ∷ [])
unfolding send values set_server_state insert new text_lt server_state lookup
sent_here = refl

send_accepts_example :
    (send parse_url describe one "hello" (some "k") none request ≡ ok (sent ∷ [])) ↔ (
      (to : List String) × AreTargets parse_url describe one "hello" (some "k") request none to
      × AreLive parse_url describe one "hello" (some "k") request to
      × AllSent parse_url describe one "hello" (some "k") request to (sent ∷ []))
send_accepts_example =
    send_accepts parse_url describe one "hello" (some "k") request none (sent ∷ [])

-- Where one of the targets refuses the message, the request fails with the replies of both.
refused_here :
    send parse_url describe router "hello" (some "k") none request
    ≡ err (mixed_failure (sent ∷ refused ∷ []))
unfolding send values set_server_state insert new text_lt server_state lookup
refused_here = refl

abbrev space_message : SpaceError → String
space_message e = "space"

abbrev payload : SendRequest ℕ
payload = record {
  text = "hello";
  idempotency_key = some "k";
  server = none;
  embeddings = record { space_id = "local"; vector = 1 ∷ [] } ∷ [];
  generate_for_spaces = small_space_id ∷ [];
  generated_embeddings_override_supplied = false;
}

post_message_accepts_example :
    (post_message parse_url describe one space_message (ok payload) ≡ ok (sent ∷ [])) ↔ (
      (p : SendRequest ℕ) × (Path (Result String (SendRequest ℕ)) (ok payload) (ok p))
      × IsValidRequest parse_url describe one space_message p
      × (send parse_url describe one p.text p.idempotency_key p.server
            (request_of parse_url describe one space_message p)
          ≡ ok (sent ∷ [])))
post_message_accepts_example =
    post_message_accepts parse_url describe one space_message (ok payload) (sent ∷ [])
