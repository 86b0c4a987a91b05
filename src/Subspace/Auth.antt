-- ===== src/Subspace/Auth.antt =====
-- src/subspace/auth.rs: registering an identity, and authenticating again. The HTTP client is a
-- parameter, and so is the JSON text of a string.
use subspace_daemon.Base.{
  Bool, List, Option, Result, String, [], and_then, append_text, bail_if, eqb, err, get_or,
  if◌then◌else◌, is_empty_text, join, leb, not, ok, ℕ, ◌&&◌, ◌>>=◌, ◌||◌, ◌∷◌,
}
use subspace_daemon.Base.Json.{Json, str, obj, Fields, end, field, get, as_str}
use subspace_daemon.Subspace.Identity.{
  Keys, Paths, NamedIdentityRecord, SubspaceSessionRecord, LegacySubspaceSessionRecord,
  sign_canonical_payload,
}

pub record SessionAuth : Type 0 where
  pub token : String
  pub expires_at : String

-- the answer to a request: the text of a failure, or a status with the body if it is JSON
pub data HttpReply (N : Type 0) : Type 0 where
  no_reply : String → HttpReply N
  replied : ℕ → Option (Json N) → HttpReply N

pub data AuthError : Type 0 where
  request_failed : String → AuthError
  start_status verify_status : ℕ → AuthError
  name_taken missing_field : String → AuthError

abbrev is_success : ℕ → Bool
is_success status = leb 200 status && leb status 299

abbrev is_verified : ℕ → Bool
is_verified status = eqb status 200 || eqb status 201

module _ {N : Type 0} where
  -- the object with these members, which are texts
  abbrev pub text_fields : List (String × String) → Fields N
  text_fields [] = end
  text_fields ((k, v) ∷ rest) = field k (str v) (text_fields rest)

  abbrev pub texts : List (String × String) → Json N
  texts fields = obj (text_fields fields)

  unfoldable pub read_string : Json N → String → Result AuthError String
  unfolding get as_str
  read_string json key =
      let value = get_or (and_then (get key json) as_str) "" in
      if is_empty_text value then err (missing_field key) else ok value

  unfoldable pub read_session_auth : Json N → Result AuthError SessionAuth
  unfolding read_string
  read_session_auth json = read_string json "sessionToken" >>= λ token.
      read_string json "sessionExpiresAt" >>= λ expires_at.
      ok (record { token = token; expires_at = expires_at })

  -- `.await.context(…)?` and `.json().await.unwrap_or_else(|_| json!({}))`
  abbrev answer : String → HttpReply N → Result AuthError (ℕ × Json N)
  answer what (no_reply e) = err (request_failed what)
  answer what (replied status body) = ok (status, get_or body (obj end))

-- `post` is the client with its `send`.
module _ {N K : Type 0} (post : String → Json N → HttpReply N) (json_text : String → String)
    (keys : Keys K) (paths : Paths) where
  -- the first of two requests: the challenge and its id
  unfoldable pub start : String → String → Json N → Result AuthError (String × String)
  unfolding read_string
  start what url body = answer what (post url body) >>= λ started.
      bail_if (not (is_success started.0)) (start_status started.0) >>= λ _.
      read_string started.1 "challenge" >>= λ challenge.
      read_string started.1 "challengeId" >>= λ challenge_id. ok (challenge, challenge_id)

  unfoldable pub register_identity :
      String → String → NamedIdentityRecord K → Result AuthError SessionAuth
  unfolding start sign_canonical_payload read_session_auth
  register_identity base_url registration_name identity =
      start "subspace register/start failed" (append_text base_url "/api/agents/register/start") (
        texts (
          ("name", registration_name)
          ∷ ("owner", "openclaw")
          ∷ ("publicKey", identity.public_key)
          ∷ []))
      >>= λ challenge.
          let canonical_payload = join "" (
            "{\"challenge\":"
            ∷ json_text challenge.0
            ∷ ",\"name\":"
            ∷ json_text registration_name
            ∷ ",\"owner\":"
            ∷ json_text "openclaw"
            ∷ ",\"publicKey\":"
            ∷ json_text identity.public_key
            ∷ "}"
            ∷ []) in
          answer "subspace register/verify failed" (
            post (append_text base_url "/api/agents/register/verify") (
              texts (
                ("challengeId", challenge.1)
                ∷ ("name", registration_name)
                ∷ ("owner", "openclaw")
                ∷ ("publicKey", identity.public_key)
                ∷ ("signature", sign_canonical_payload keys paths identity canonical_payload)
                ∷ [])))
          >>= λ verify. bail_if (eqb verify.0 409) (name_taken registration_name) >>= λ _.
              bail_if (not (is_verified verify.0)) (verify_status verify.0) >>= λ _.
              read_session_auth verify.1

  -- The common part of both ways to authenticate again; `sign` signs for the agent.
  unfoldable pub reauth_agent : String → String → (String → String) → Result AuthError SessionAuth
  unfolding start read_session_auth
  reauth_agent base_url agent_id sign =
      start "subspace reauth/start failed" (append_text base_url "/api/agents/reauth/start")
        (texts (("agentId", agent_id) ∷ []))
      >>= λ challenge.
          let canonical_payload = join "" (
            "{\"agentId\":"
            ∷ json_text agent_id
            ∷ ",\"challenge\":"
            ∷ json_text challenge.0
            ∷ "}"
            ∷ []) in
          answer "subspace reauth/verify failed" (
            post (append_text base_url "/api/agents/reauth/verify") (
              texts (
                ("challengeId", challenge.1)
                ∷ ("agentId", agent_id)
                ∷ ("signature", sign canonical_payload)
                ∷ [])))
          >>= λ verify. bail_if (not (is_verified verify.0)) (verify_status verify.0) >>= λ _.
              read_session_auth verify.1

  unfoldable pub reauth_identity :
      String → SubspaceSessionRecord → NamedIdentityRecord K → Result AuthError SessionAuth
  unfolding reauth_agent sign_canonical_payload
  reauth_identity base_url session identity =
      reauth_agent base_url session.agent_id (sign_canonical_payload keys paths identity)

  unfoldable pub reauth_legacy_identity :
      String → LegacySubspaceSessionRecord K → Result AuthError SessionAuth
  unfolding reauth_agent
  reauth_legacy_identity base_url session =
      reauth_agent base_url session.agent_id (keys.sign session.signing_key)
