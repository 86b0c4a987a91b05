-- ===== src/Ipc/Replies.antt =====
-- What the tasks of the targets reply to a request, and when it is answered with a success.
use mathlib.Core.Path.{subst}
use subspace_daemon.Base.{
  >>=-eq-ok, Bool, Bool-cases, List, Option, Option-cases, Result, String, [], all, ap, arith, err,
  err-ne-ok, false, find?, if◌then◌else◌, inl, inr, is_empty, is_ok, lookup, none, not, ok, ok-inj,
  refl, some, sym, true, ◌>>=◌, ◌↔◌, ◌∙◌, ◌∷◌, ◌≡◌,
}
use subspace_daemon.Attention.Outbound.{OutboundEmbeddingRequest}
use subspace_daemon.Config.Error.{ConfigError}
use subspace_daemon.Config.Url.{Url}
use subspace_daemon.Ipc.{
  ServerSendResultEnvelope, SendRouteError, unknown_server, mixed_failure, ServerHandle, SendRouter,
  is_live, targets, envelope, send_all, send_to_targets, send,
}

module _ {F : Type 0} (parse_url : String → Result ConfigError Url)
    (describe : ConfigError → String) (router : SendRouter F) (text : String) (key : Option String)
    (request : OutboundEmbeddingRequest F) where
  -- The result is what the task of that target replied.
  abbrev pub IsReply : String → ServerSendResultEnvelope → Type 0
  IsReply target result =
      (handle : ServerHandle F) × (lookup target router.handles ≡ some handle)
      × (result ≡ envelope parse_url describe router key target (handle text key request))

  -- one reply for each target, in their order
  abbrev pub Replies : List String → List ServerSendResultEnvelope → Type 0
  Replies [] [] = Unit
  Replies [] (r ∷ rs) = ⊥
  Replies (t ∷ ts) [] = ⊥
  Replies (t ∷ ts) (r ∷ rs) = IsReply t r × Replies ts rs

  abbrev send_each : List String → Result SendRouteError (List ServerSendResultEnvelope)
  send_each to = send_all parse_url describe router text key request to

  Replies-cast :
      (to : List String) {rs ss : List ServerSendResultEnvelope}
      → rs ≡ ss
      → Replies to rs
      → Replies to ss
  Replies-cast to e replies = subst (Replies to) e replies

  send_all-missing :
      (t : String) (ts : List String)
      → lookup t router.handles ≡ none
      → send_each (t ∷ ts) ≡ err unknown_server
  unfolding send_all
  send_all-missing t ts h = rw (send_all, h) refl

  send_all-next :
      (t : String) (ts : List String) {handle : ServerHandle F}
      → lookup t router.handles ≡ some handle
      → send_each (t ∷ ts) ≡ (
          send_each ts >>= λ results.
          ok (envelope parse_url describe router key t (handle text key request) ∷ results))
  unfolding send_all
  send_all-next t ts h = rw (send_all, h) refl

  send_all-Replies :
      (to : List String) {results : List ServerSendResultEnvelope}
      → send_each to ≡ ok results
      → Replies to results
  unfolding send_all
  send_all-Replies [] h = Replies-cast [] (ok-inj h) tt
  send_all-Replies (t ∷ ts) h = elim (Option-cases (lookup t router.handles)) [
    | inl missing ↦ absurd (err-ne-ok (sym (send_all-missing t ts missing) ∙ h))
    | inr (handle, found) ↦
        let (rs, rest, made) = >>=-eq-ok (send_each ts) _ (sym (send_all-next t ts found) ∙ h) in
        Replies-cast (t ∷ ts) (ok-inj made) ((handle, found, refl), send_all-Replies ts rest)
  ]

  Replies-send_all :
      (to : List String) (results : List ServerSendResultEnvelope)
      → Replies to results
      → send_each to ≡ ok results
  unfolding send_all
  Replies-send_all [] [] h = refl
  Replies-send_all [] (r ∷ rs) h = absurd h
  Replies-send_all (t ∷ ts) [] h = absurd h
  Replies-send_all (t ∷ ts) (r ∷ rs) ((handle, found, same), rest) =
      rw (send_all, found, Replies-send_all ts rs rest, same) refl

  -- Every target is live, and there is one.
  abbrev pub AreLive : List String → Type 0
  AreLive to = (is_empty to ≡ false) × (find? (λ t. not (is_live router.status t)) to ≡ none)

  send_to_targets-empty :
      (to : List String)
      → is_empty to ≡ true
      → is_ok (send_to_targets parse_url describe router text key request to) ≡ false
  unfolding send_to_targets
  send_to_targets-empty to h = rw (send_to_targets, h) refl

  send_to_targets-not_live :
      (to : List String) {t : String}
      → is_empty to ≡ false
      → find? (λ t. not (is_live router.status t)) to ≡ some t
      → is_ok (send_to_targets parse_url describe router text key request to) ≡ false
  unfolding send_to_targets
  send_to_targets-not_live to h found = rw (send_to_targets, h, found) refl

  send_to_targets-live :
      (to : List String)
      → AreLive to
      → send_to_targets parse_url describe router text key request to ≡ (
          send_each to >>= λ results.
          if all (λ r. r.sent) results then ok results else err (mixed_failure results))
  unfolding send_to_targets
  send_to_targets-live to h = rw (send_to_targets, h.0, h.1) refl

  send_to_targets-AreLive :
      (to : List String) {results : List ServerSendResultEnvelope}
      → send_to_targets parse_url describe router text key request to ≡ ok results
      → AreLive to
  send_to_targets-AreLive to h = elim (Bool-cases (is_empty to)) [
    | inl empty ↦ absurd (ground (arith, send_to_targets-empty to empty, ap is_ok h))
    | inr filled ↦ elim (Option-cases (find? (λ t. not (is_live router.status t)) to)) [
      | inl live ↦ (filled, live)
      | inr (t, found) ↦
          absurd (ground (arith, send_to_targets-not_live to filled found, ap is_ok h))
    ]
  ]

  chosen :
      (b : Bool) (rs : List ServerSendResultEnvelope) {results : List ServerSendResultEnvelope}
      → (if b then ok rs else err (mixed_failure rs)) ≡ ok results
      → (b ≡ true) × (rs ≡ results)
  chosen true rs h = (refl, ok-inj h)
  chosen false rs h = absurd (err-ne-ok h)

  send_to_targets_accepts :
      (to : List String) (results : List ServerSendResultEnvelope)
      → (send_to_targets parse_url describe router text key request to ≡ ok results)
        ↔ (AreLive to × Replies to results × (all (λ r. r.sent) results ≡ true))
  send_to_targets_accepts to results = (
    λ h.
        let live = send_to_targets-AreLive to h in
        let (rs, sent, more) =
          >>=-eq-ok (send_each to) _ (sym (send_to_targets-live to live) ∙ h) in
        let (whole, same) = chosen (all (λ r. r.sent) rs) rs more in
        (
          live,
          Replies-cast to same (send_all-Replies to sent),
          ap (λ xs. all (λ r. r.sent) xs) (sym same) ∙ whole,
        ),
    λ (live, replies, whole).
        rw (send_to_targets-live to live, Replies-send_all to results replies, whole) refl,
  )

  pub send_iff :
      (server : Option String) (results : List ServerSendResultEnvelope)
      → (send parse_url describe router text key server request ≡ ok results) ↔ (
          (to : List String) × (targets parse_url describe router server ≡ ok to)
          × AreLive to
          × Replies to results
          × (all (λ r. r.sent) results ≡ true))
  unfolding send
  send_iff server results = (
    λ h.
        let (to, found, sent) = >>=-eq-ok (targets parse_url describe router server) _ h in
        let (live, replies, whole) = (send_to_targets_accepts to results).0 sent in
        (to, found, live, replies, whole),
    λ (to, found, live, replies, whole).
        rw (found) ((send_to_targets_accepts to results).1 (live, replies, whole)),
  )
