-- ===== src/Subspace/Session.antt =====
-- src/subspace/client.rs: the session of a connection.
use subspace_daemon.Base.{Option, String, some}
use subspace_daemon.Subspace.Identity.{
  Keys, Paths, Content, session_file, NamedIdentityRecord, SubspaceSessionRecord,
  LegacySubspaceSessionRecord, clear_session_token as clear_current_token,
  update_session_token as update_current_token, clear_legacy_token, update_legacy_token,
  legacy_content,
}
use subspace_daemon.Subspace.Auth.{SessionAuth}

pub data ActiveSession (K : Type 0) : Type 0 where
  current : SubspaceSessionRecord → NamedIdentityRecord K → ActiveSession K
  legacy : LegacySubspaceSessionRecord K → ActiveSession K

module _ {K : Type 0} where
  unfoldable pub agent_id : ActiveSession K → String
  agent_id (current session identity) = session.agent_id
  agent_id (legacy session) = session.agent_id

  unfoldable pub session_token : ActiveSession K → Option String
  session_token (current session identity) = session.session_token
  session_token (legacy session) = session.session_token

  unfoldable pub session_expires_at : ActiveSession K → Option String
  session_expires_at (current session identity) = session.session_expires_at
  session_expires_at (legacy session) = session.session_expires_at

  unfoldable pub clear_session_token : ActiveSession K → ActiveSession K
  unfolding clear_current_token clear_legacy_token
  clear_session_token (current session identity) = current (clear_current_token session) identity
  clear_session_token (legacy session) = legacy (clear_legacy_token session)

  unfoldable pub update_session_token : SessionAuth → ActiveSession K → ActiveSession K
  unfolding update_current_token update_legacy_token
  update_session_token auth (current session identity) =
      current (update_current_token auth.token (some auth.expires_at) session) identity
  update_session_token auth (legacy session) =
      legacy (update_legacy_token auth.token (some auth.expires_at) session)

-- what `persist` writes
unfoldable pub content : {K : Type 0} → Keys K → Paths → ActiveSession K → Content
unfolding legacy_content
content keys paths (current session identity) = session_file session
content keys paths (legacy session) = legacy_content keys paths session
