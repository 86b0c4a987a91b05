-- ===== src/Ipc.antt =====
-- src/ipc.rs: the requests for outbound messages. A server's handle is what its task replies to
-- the command; the response of the socket is its status with its body.
pub mod Replies
pub mod Sends
pub mod Accepts
use subspace_daemon.Base.{
  Bool, List, Option, Result, String, [], all, append_text, bail_if, err, false, filter, find?,
  get_or, if◌then◌else◌, is_empty, is_empty_text, is_some, join, lookup, map, none, not, ok,
  option_map, some, trim, true, ℕ, ◌==◌, ◌>>=◌, ◌∷◌,
}
use subspace_daemon.Attention.Evaluate.{MessageEmbedding}
use subspace_daemon.Attention.Outbound.{
  OutboundEmbeddingRequest, SpaceError, empty_space, unsupported_space, validate_generated_spaces,
}
use subspace_daemon.Status.{DaemonStatus, ServerHealth, server_state, servers_snapshot}
use subspace_daemon.Config.Error.{ConfigError}
use subspace_daemon.Config.Url.{Url, canonicalize_base_url}

pub record SendRequest (F : Type 0) : Type 0 where
  pub text : String
  pub idempotency_key : Option String
  pub server : Option String
  pub embeddings : List (MessageEmbedding F)
  pub generate_for_spaces : List String
  pub generated_embeddings_override_supplied : Bool

pub record ServerSendResultEnvelope : Type 0 where
  pub server : String
  pub sent : Bool
  pub subspace_message_id : Option String
  pub idempotency_key : Option String
  pub error : Option String

pub record OutboundSendResult : Type 0 where
  pub server : String
  pub subspace_message_id : Option String
  pub idempotency_key : String

pub record SendRouteError : Type 0 where
  pub status : ℕ
  pub code : String
  pub message : String
  pub results : List ServerSendResultEnvelope

unfoldable pub invalid_request : String → SendRouteError
invalid_request message = record {
  status = 400;
  code = "invalid_request";
  message = message;
  results = [];
}

unfoldable pub unknown_server : SendRouteError
unknown_server = record {
  status = 404;
  code = "unknown_server";
  message = "server not configured";
  results = [];
}

unfoldable pub subspace_unavailable : String → SendRouteError
subspace_unavailable message = record {
  status = 503;
  code = "subspace_unavailable";
  message = message;
  results = [];
}

unfoldable pub mixed_failure : List ServerSendResultEnvelope → SendRouteError
mixed_failure results = record {
  status = 503;
  code = "subspace_unavailable";
  message = "one or more targeted Subspace servers failed";
  results = results;
}

-- What a server's task replies to a send.
abbrev pub ServerHandle : Type 0 → Type 0
ServerHandle F =
    String → Option String → OutboundEmbeddingRequest F → Result String OutboundSendResult

-- The state that a router reads: the status and the handles of the servers.
pub record SendRouter (F : Type 0) : Type 0 where
  pub status : DaemonStatus
  pub handles : List (String × ServerHandle F)

abbrev pub is_live : DaemonStatus → String → Bool
is_live status target = get_or (option_map (λ s. s == "live") (server_state target status)) false

module _ {F : Type 0} (parse_url : String → Result ConfigError Url)
    (describe : ConfigError → String) (router : SendRouter F) where
  -- the servers that a request without a server goes to
  unfoldable pub live_servers : List String
  unfolding servers_snapshot
  live_servers =
      map (λ s. s.server)
        (filter (λ s. s.subspace_state == "live") (servers_snapshot router.status))

  unfoldable pub targets : Option String → Result SendRouteError (List String)
  unfolding canonicalize_base_url live_servers
  targets none = ok live_servers
  targets (some server) = elim (canonicalize_base_url parse_url server) [
    | err e ↦ err (invalid_request (append_text "invalid server url: " (describe e)))
    | ok canonical ↦
        if is_some (lookup canonical router.handles)
        then ok (canonical ∷ [])
        else err unknown_server
  ]

  -- one pass of the sending loop
  unfoldable pub envelope :
      Option String → String → Result String OutboundSendResult → ServerSendResultEnvelope
  envelope key target (ok r) = record {
    server = r.server;
    sent = true;
    subspace_message_id = r.subspace_message_id;
    idempotency_key = some r.idempotency_key;
    error = none;
  }
  envelope key target (err message) = record {
    server = target;
    sent = false;
    subspace_message_id = none;
    idempotency_key = key;
    error = some message;
  }

  unfoldable pub send_all :
      String
      → Option String
      → OutboundEmbeddingRequest F
      → List String
      → Result SendRouteError (List ServerSendResultEnvelope)
  unfolding envelope unknown_server
  send_all text key request [] = ok []
  send_all text key request (target ∷ rest) = elim (lookup target router.handles) [
    | none ↦ err unknown_server
    | some handle ↦ send_all text key request rest >>= λ results.
        ok (envelope key target (handle text key request) ∷ results)
  ]

  -- the part of `send` after the targets are known
  unfoldable pub send_to_targets :
      String
      → Option String
      → OutboundEmbeddingRequest F
      → List String
      → Result SendRouteError (List ServerSendResultEnvelope)
  unfolding subspace_unavailable send_all mixed_failure
  send_to_targets text key request to =
      if is_empty to
      then err (subspace_unavailable "no targeted Subspace server is live")
      else elim (find? (λ target. not (is_live router.status target)) to) [
        | some target ↦
            err (subspace_unavailable (append_text "targeted Subspace server is not live: " target))
        | none ↦ send_all text key request to >>= λ results.
            if all (λ r. r.sent) results then ok results else err (mixed_failure results)
      ]

  -- `SendRouter::send`
  unfoldable pub send :
      String
      → Option String
      → Option String
      → OutboundEmbeddingRequest F
      → Result SendRouteError (List ServerSendResultEnvelope)
  unfolding targets send_to_targets
  send text key server request = targets server >>= λ to. send_to_targets text key request to

  -- the loop over the embeddings of a request
  unfoldable pub check_embeddings : List (MessageEmbedding F) → Result String (Unit {0})
  unfolding trim
  check_embeddings [] = ok tt
  check_embeddings (e ∷ es) =
      bail_if (is_empty_text (trim e.space_id)) "embeddings[].space_id must not be empty" >>= λ _.
      bail_if (is_empty e.vector)
        (join "" ("embeddings[" ∷ e.space_id ∷ "].vector must not be empty" ∷ []))
      >>= λ _. check_embeddings es

  unfoldable pub validate_embedding_request :
      (SpaceError → String) → SendRequest F → Result String (Unit {0})
  unfolding check_embeddings validate_generated_spaces
  validate_embedding_request space_message payload = check_embeddings payload.embeddings >>= λ _.
      elim (validate_generated_spaces payload.generate_for_spaces) [
        | ok u ↦ ok tt
        | err e ↦ err (space_message e)
      ]

  -- The route `POST /v1/messages` of `handle_request`, with the payload that the JSON library reads
  -- of the body or the text of its error.
  unfoldable pub post_message :
      (SpaceError → String)
      → Result String (SendRequest F)
      → Result SendRouteError (List ServerSendResultEnvelope)
  unfolding invalid_request trim validate_embedding_request send
  post_message space_message (err e) = err (invalid_request (append_text "invalid json: " e))
  post_message space_message (ok payload) =
      bail_if (is_empty_text (trim payload.text)) (invalid_request "text required") >>= λ _.
      elim (validate_embedding_request space_message payload) [
        | err e ↦ err (invalid_request e)
        | ok u ↦ send payload.text payload.idempotency_key payload.server (record {
          embeddings = payload.embeddings;
          generate_for_spaces = payload.generate_for_spaces;
          generated_embeddings_override_supplied = payload.generated_embeddings_override_supplied;
        })
      ]
