-- ===== src/Ipc/Accepts.antt =====
-- Which bodies of `POST /v1/messages` are sent.
use subspace_daemon.Base.{
  Bool, List, Result, Result-cases, String, [], all, ap, arith, false, inl, inr, is_empty,
  is_empty_text, is_ok, not, ok, refl, sym, trim, true, ◌&&◌, ◌↔◌, ◌∙◌, ◌∷◌, ◌≡◌,
}
use subspace_daemon.Attention.Evaluate.{MessageEmbedding}
use subspace_daemon.Attention.Outbound.{
  OutboundEmbeddingRequest, SpaceError, is_supported_generated_space, validate_generated_spaces,
  validate_generated_spaces_iff,
}
use subspace_daemon.Config.Error.{ConfigError}
use subspace_daemon.Config.Url.{Url}
use subspace_daemon.Ipc.{
  SendRequest, ServerSendResultEnvelope, SendRouteError, SendRouter, send, check_embeddings,
  validate_embedding_request, post_message,
}

module _ {F : Type 0} (parse_url : String → Result ConfigError Url)
    (describe : ConfigError → String) (router : SendRouter F)
    (space_message : SpaceError → String) where
  abbrev pub is_complete : MessageEmbedding F → Bool
  is_complete e = not (is_empty_text (trim e.space_id)) && not (is_empty e.vector)

  -- The requests that pass the checks of the route.
  abbrev pub IsValidRequest : SendRequest F → Type 0
  IsValidRequest payload =
      (is_empty_text (trim payload.text) ≡ false)
      × (all is_complete payload.embeddings ≡ true)
      × (all (λ s. is_supported_generated_space (trim s)) payload.generate_for_spaces ≡ true)

  check_embeddings-ok :
      (es : List (MessageEmbedding F))
      → is_ok (check_embeddings parse_url describe router es) ≡ all is_complete es
  unfolding check_embeddings
  check_embeddings-ok [] = refl
  check_embeddings-ok (e ∷ es) = ground (arith, check_embeddings-ok es)

  validate_spaces-ok :
      (spaces : List String)
      → is_ok (validate_generated_spaces spaces)
        ≡ all (λ s. is_supported_generated_space (trim s)) spaces
  validate_spaces-ok spaces = elim (Result-cases (validate_generated_spaces spaces)) [
    | inl (u, h) ↦ ap is_ok h ∙ sym ((validate_generated_spaces_iff spaces).0 h)
    | inr (e, h) ↦ ground (arith, h, validate_generated_spaces_iff spaces)
  ]

  validate_embedding_request-ok :
      (payload : SendRequest F)
      → is_ok (validate_embedding_request parse_url describe router space_message payload) ≡ (
          all is_complete payload.embeddings
          && all (λ s. is_supported_generated_space (trim s)) payload.generate_for_spaces)
  unfolding validate_embedding_request
  validate_embedding_request-ok payload = ground (
    arith,
    check_embeddings-ok payload.embeddings,
    validate_spaces-ok payload.generate_for_spaces,
  )

  abbrev pub request_of : SendRequest F → OutboundEmbeddingRequest F
  request_of payload = record {
    embeddings = payload.embeddings;
    generate_for_spaces = payload.generate_for_spaces;
    generated_embeddings_override_supplied = payload.generated_embeddings_override_supplied;
  }

  abbrev send_payload : SendRequest F → Result SendRouteError (List ServerSendResultEnvelope)
  send_payload p = send parse_url describe router p.text p.idempotency_key p.server (request_of p)

  post_message-valid :
      (p : SendRequest F)
      → IsValidRequest p
      → post_message parse_url describe router space_message (ok p) ≡ send_payload p
  unfolding post_message
  post_message-valid p (filled, complete, supported) =
      elim (Result-cases (validate_embedding_request parse_url describe router space_message p)) [
        | inl (u, h) ↦ rw (post_message, filled, h) refl
        | inr (e, h) ↦
            absurd (ground (arith, h, validate_embedding_request-ok p, complete, supported))
      ]

  post_message-IsValidRequest :
      (p : SendRequest F)
      → is_ok (post_message parse_url describe router space_message (ok p)) ≡ true
      → IsValidRequest p
  unfolding post_message
  post_message-IsValidRequest p h =
      elim (Result-cases (validate_embedding_request parse_url describe router space_message p)) [
        | inl (u, valid) ↦ ground (arith, valid, validate_embedding_request-ok p, h)
        | inr (e, refused) ↦ absurd (ground (arith, refused, h))
      ]

  -- The route answers with a success exactly where the body is a request whose text is not blank,
  -- whose embeddings all have a space that is not blank and a vector that is not empty, and whose
  -- spaces to generate are all supported, and where sending that request succeeds.
  pub post_message_accepts :
      (body : Result String (SendRequest F)) (results : List ServerSendResultEnvelope)
      → (post_message parse_url describe router space_message body ≡ ok results)
        ↔ ((p : SendRequest F) × (body ≡ ok p) × IsValidRequest p × (send_payload p ≡ ok results))
  unfolding post_message
  post_message_accepts body results = (
    λ h. elim (Result-cases body) [
      | inl (p, read) ↦
          let posted = ap (post_message parse_url describe router space_message) (sym read) ∙ h in
          let valid = post_message-IsValidRequest p (ap is_ok posted) in
          (p, read, valid, sym (post_message-valid p valid) ∙ posted)
      | inr (e, read) ↦
          absurd (
            ground
              (arith, ap (post_message parse_url describe router space_message) (sym read) ∙ h))
    ],
    λ (p, read, valid, sent). rw (read) (post_message-valid p valid ∙ sent),
  )
