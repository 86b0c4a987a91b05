-- ===== src/Subspace/Payloads.antt =====
-- src/subspace/client.rs: what is sent to a Subspace server, and what is read of its frames.
use subspace_daemon.Base.{
  Bool, List, Option, Result, String, [], and_then, get_or, or_else, some, ◌==◌, ◌||◌, ◌∷◌,
}
use subspace_daemon.Base.Json.{Json, str, obj, end, field, get, as_str}
use subspace_daemon.Attention.Layer.{AttentionLayer}
use subspace_daemon.Attention.Evaluate.{MessageEmbedding}
use subspace_daemon.Config.Stored.{ServerConfig}
use subspace_daemon.HardFailure.{HardFailureEvent}
use subspace_daemon.Runtime.Store.{Rfc3339}
use subspace_daemon.Subspace.Frames.{text_of, parse_message_embeddings}
use subspace_daemon.Wake.Process.{Item}

-- What the process sees of its libraries.
pub record Link (F N : Type 0) : Type 0 where
  pub clock : Rfc3339
  pub parse : String → Result String (Json N)
  pub to_f32 : N → F
  pub embeddings_json : List (MessageEmbedding F) → Json N
  pub quote : String → String

unfoldable pub server_hard_failure_event :
    {P : Type 0} → ServerConfig P → String → String → HardFailureEvent
server_hard_failure_event server kind message = record {
  kind = kind;
  component = "subspace";
  target = some server.base_url;
  message = message;
  metadata = ("server", server.base_url) ∷ ("server_key", server.server_key) ∷ [];
}

abbrev pub is_token_error : String → Bool
is_token_error error = error == "TOKEN_INVALID" || error == "TOKEN_REVOKED"

module _ {N : Type 0} where
  unfoldable pub heartbeat : String → Json N
  heartbeat ref = obj (
      field "topic" (str "phoenix")
        (field "event" (str "heartbeat") (field "payload" (obj end) (field "ref" (str ref) end))))

  -- `payload.get("response").and_then(|response| response.get(key))`
  abbrev pub response_member : String → Json N → Option (Json N)
  response_member key payload = and_then (get "response" payload) (get key)

  unfoldable pub message_id_of : Json N → Option String
  unfolding get as_str
  message_id_of payload =
      and_then (or_else (response_member "id" payload) (response_member "messageId" payload)) as_str

  unfoldable pub reply_error : Json N → String
  unfolding get as_str
  reply_error payload = get_or (and_then (response_member "error" payload) as_str) "send_failed"

module _ {F N P : Type 0} (link : Link F N) (server : ServerConfig P) where
  unfoldable pub post_message : String → String → List (MessageEmbedding F) → String → Json N
  post_message text idem embeddings ref = obj (
      field "topic" (str "firehose") (
        field "event" (str "post_message") (
          field "payload"
            (obj (
              field "text" (str text) (
                field "idempotency_key" (str idem)
                  (field "embeddings" (link.embeddings_json embeddings) end))))
            (field "ref" (str ref) end))))

  unfoldable pub inbound_item : AttentionLayer F → Json N → Json N → Item F
  unfolding text_of parse_message_embeddings
  inbound_item attention parsed payload = record {
    envelope = record {
      server = server.base_url;
      server_key = server.server_key;
      message_id = get_or (text_of "id" payload) "";
      timestamp = get_or (text_of "ts" payload) "";
      inbound_event = get_or (text_of "event" parsed) "";
      author_id = get_or (text_of "agentId" payload) "";
      author_name = get_or (or_else (text_of "agentName" payload) (text_of "agentId" payload)) "";
      text = get_or (text_of "text" payload) "";
      sender_embeddings = parse_message_embeddings link.to_f32 payload;
    };
    attention = attention;
    wake_session_key_override = server.wake_session_key;
  }
