-- ===== src/Ipc/Sends.antt =====
-- When a request for an outbound message is answered with a success.
use subspace_daemon.Base.{
  Bool-cases, List, Option, Result, Result-cases, String, [], all, ap, arith, err, false, filter,
  inl, inr, is_ok, is_some, lookup, map, none, ok, ok-inj, refl, some, sym, true, ◌==◌, ◌↔◌, ◌∙◌,
  ◌∷◌, ◌≡◌,
}
use subspace_daemon.Attention.Outbound.{OutboundEmbeddingRequest}
use subspace_daemon.Config.Error.{ConfigError}
use subspace_daemon.Config.Url.{Url, canonicalize_base_url}
use subspace_daemon.Ipc.{
  ServerSendResultEnvelope, ServerHandle, SendRouter, targets, envelope, send, OutboundSendResult,
  live_servers, servers_snapshot,
}
use subspace_daemon.Ipc.Replies.{AreLive, Replies, IsReply, send_iff}

module _ {F : Type 0} (parse_url : String → Result ConfigError Url)
    (describe : ConfigError → String) (router : SendRouter F) (text : String) (key : Option String)
    (request : OutboundEmbeddingRequest F) where
  -- The targets of a request without a server are those whose reported state is live; a given
  -- server is the target if its URL is one, in its canonical form, that a task is running for.
  abbrev pub AreTargets : Option String → List String → Type 0
  AreTargets none to =
      to
      ≡ map (λ h. h.server)
          (filter (λ h. h.subspace_state == "live") (servers_snapshot router.status))
  AreTargets (some server) to =
      (url : String) × (canonicalize_base_url parse_url server ≡ ok url)
      × (is_some (lookup url router.handles) ≡ true)
      × (to ≡ url ∷ [])

  -- The task of the target replied that it sent the message, and the result says so.
  abbrev pub IsSent : String → ServerSendResultEnvelope → Type 0
  IsSent target result =
      (handle : ServerHandle F) × (lookup target router.handles ≡ some handle)
      × ((r : OutboundSendResult) × (handle text key request ≡ ok r)
          × (result ≡ record {
            server = r.server;
            sent = true;
            subspace_message_id = r.subspace_message_id;
            idempotency_key = some r.idempotency_key;
            error = none;
          }))

  abbrev pub AllSent : List String → List ServerSendResultEnvelope → Type 0
  AllSent [] [] = Unit
  AllSent [] (r ∷ rs) = ⊥
  AllSent (t ∷ ts) [] = ⊥
  AllSent (t ∷ ts) (r ∷ rs) = IsSent t r × AllSent ts rs

  envelope-failed :
      (target m : String) → (envelope parse_url describe router key target (err m)).sent ≡ false
  unfolding envelope
  envelope-failed target m = refl

  IsReply-IsSent :
      (t : String) (r : ServerSendResultEnvelope)
      → (IsReply parse_url describe router text key request t r × (r.sent ≡ true)) ↔ IsSent t r
  unfolding envelope
  IsReply-IsSent t r = (
    λ ((handle, found, same), sent). elim (Result-cases (handle text key request)) [
      | inl (x, e) ↦ (handle, found, (x, e, rw e at same))
      | inr (m, e) ↦ absurd (ground (arith, same, e, sent, envelope-failed t m))
    ],
    λ (handle, found, (x, e, same)). ((handle, found, rw e same), rw same refl),
  )

  AllSent-iff :
      (to : List String) (results : List ServerSendResultEnvelope)
      → (Replies parse_url describe router text key request to results
          × (all (λ r. r.sent) results ≡ true))
        ↔ AllSent to results
  AllSent-iff [] [] = (λ _. tt, λ _. (tt, refl))
  AllSent-iff [] (r ∷ rs) = (λ h. h.0, λ h. absurd h)
  AllSent-iff (t ∷ ts) [] = (λ h. h.0, λ h. absurd h)
  AllSent-iff (t ∷ ts) (r ∷ rs) =
      let ih = AllSent-iff ts rs in
      let here = IsReply-IsSent t r in
      (
        λ h. (here.0 (h.0.0, ground (arith, h.1)), ih.0 (h.0.1, ground (arith, h.1))),
        λ h.
            let one = here.1 h.0 in
            let rest = ih.1 h.1 in ((one.0, rest.0), ground (arith, one.1, rest.1)),
      )

  targets-invalid :
      (server : String) {e : ConfigError}
      → canonicalize_base_url parse_url server ≡ err e
      → is_ok (targets parse_url describe router (some server)) ≡ false
  unfolding targets
  targets-invalid server h = rw (targets, h) refl

  targets-unknown :
      (server : String) {url : String}
      → canonicalize_base_url parse_url server ≡ ok url
      → is_some (lookup url router.handles) ≡ false
      → is_ok (targets parse_url describe router (some server)) ≡ false
  unfolding targets
  targets-unknown server h known = rw (targets, h, known) refl

  targets-known :
      (server : String) {url : String}
      → canonicalize_base_url parse_url server ≡ ok url
      → is_some (lookup url router.handles) ≡ true
      → targets parse_url describe router (some server) ≡ ok (url ∷ [])
  unfolding targets
  targets-known server h known = rw (targets, h, known) refl

  targets_iff :
      (server : Option String) (to : List String)
      → (targets parse_url describe router server ≡ ok to) ↔ AreTargets server to
  unfolding targets live_servers
  targets_iff none to = (λ h. sym (ok-inj h), λ h. rw h refl)
  targets_iff (some server) to = (
    λ h. elim (Result-cases (canonicalize_base_url parse_url server)) [
      | inr (e, k) ↦ absurd (ground (arith, targets-invalid server k, ap is_ok h))
      | inl (url, k) ↦ elim (Bool-cases (is_some (lookup url router.handles))) [
        | inl known ↦ (url, k, known, ok-inj (sym h ∙ targets-known server k known))
        | inr other ↦ absurd (ground (arith, targets-unknown server k other, ap is_ok h))
      ]
    ],
    λ (url, k, known, same). rw same (targets-known server k known),
  )

  -- A request succeeds exactly where it has targets (the given server in its canonical form, if a
  -- task is running for it, or without one every server whose state is live), each of them is
  -- live, and the task of each replied that it sent the message; the results are what the tasks
  -- replied, one for each target and in their order.
  pub send_accepts :
      (server : Option String) (results : List ServerSendResultEnvelope)
      → (send parse_url describe router text key server request ≡ ok results) ↔ (
          (to : List String) × AreTargets server to
          × AreLive parse_url describe router text key request to
          × AllSent to results)
  send_accepts server results = (
    λ h.
        let (to, found, live, replies, whole) =
          (send_iff parse_url describe router text key request server results).0 h in
        (to, (targets_iff server to).0 found, live, (AllSent-iff to results).0 (replies, whole)),
    λ (to, found, live, sent).
        let (replies, whole) = (AllSent-iff to results).1 sent in
        (send_iff parse_url describe router text key request server results).1
          (to, (targets_iff server to).1 found, live, replies, whole),
  )
